-- ===== src/Checksum/Steps.antt =====
-- One byte: the register behind it tells the register in front of it, and the byte.
use ltfs.Prelude.{
  ℕ, ◌*◌, ◌/◌, ◌%◌, ◌^◌, ◌<◌, ◌≡◌, refl, sym, ◌∙◌, ap, arith, true, ◌==◌, all_below,
  all_below_sound,
}
use ltfs.Checksum.{xor, table_at, enc4}
use ltfs.Checksum.Words.{low, xor_same_left, xor_same_right, low-xor, low_all, low_word, xor_bound}

-- the low byte of an entry is its index
table_bytes : all_below 256 (λ i. low 8 (table_at i) == i) ≡ true
unfolding all_below low table_at
table_bytes = refl

low-table_at : (i : ℕ) → i < 256 → low 8 (table_at i) ≡ i
low-table_at i h = let t = all_below_sound 256 _ i table_bytes h in ground (arith, t)

-- a word that is moved up by a byte has no low byte
low_shifted : (r : ℕ) → low 8 (r * 256 % 2 ^ 32) ≡ 0
unfolding low
low_shifted r = omega arith

abbrev index : ℕ → ℕ → ℕ
index byte reg = xor 8 byte (reg / 2 ^ 24)

low-enc4 : (byte reg : ℕ) → low 8 (enc4 byte reg) ≡ index byte reg
unfolding enc4
low-enc4 byte reg =
    low-xor 8 32 (reg * 256 % 2 ^ 32) (table_at (index byte reg)) (omega arith) (low_shifted reg)
    ∙ low-table_at (index byte reg) (xor_bound 8 byte (reg / 2 ^ 24))

pub enc4_bound : (byte reg : ℕ) → enc4 byte reg < 2 ^ 32
unfolding enc4
enc4_bound byte reg = xor_bound 32 _ _

same_index : (a r b s : ℕ) → enc4 a r ≡ enc4 b s → index a r ≡ index b s
same_index a r b s e = sym (low-enc4 a r) ∙ ap (low 8) e ∙ low-enc4 b s

-- The same byte leads to different registers from different ones.
pub enc4_same_byte : (a r s : ℕ) → r < 2 ^ 32 → s < 2 ^ 32 → enc4 a r ≡ enc4 a s → r ≡ s
unfolding enc4
enc4_same_byte a r s h k e =
    let i = same_index a r a s e in
    let top = xor_same_left 8 a (r / 2 ^ 24) (s / 2 ^ 24) i in
    let t1 = low_all (r / 2 ^ 24) (omega (arith, h)) in
    let t2 = low_all (s / 2 ^ 24) (omega (arith, k)) in
    let rest =
      xor_same_right 32 (r * 256 % 2 ^ 32) (s * 256 % 2 ^ 32) (table_at (index a s))
        ((rw i at e)) in
    let u1 = low_word (r * 256 % 2 ^ 32) (omega arith) in
    let u2 = low_word (s * 256 % 2 ^ 32) (omega arith) in
    omega (arith, top, t1, t2, rest, u1, u2, h, k)

-- Different bytes lead to different registers from the same one.
pub enc4_same_reg : (a b r : ℕ) → a < 256 → b < 256 → enc4 a r ≡ enc4 b r → a ≡ b
enc4_same_reg a b r h k e =
    let i = same_index a r b r e in
    let bytes = xor_same_right 8 a b (r / 2 ^ 24) i in
    omega (arith, bytes, low_all a h, low_all b k)
