-- ===== src/Checksum/Words.antt =====
-- Exclusive or on words, and the low bits of one.
use ltfs.Prelude.{ℕ, zero, suc, ◌+◌, ◌*◌, ◌/◌, ◌%◌, ◌^◌, ◌≤◌, ◌<◌, ◌≡◌, refl, arith}
use ltfs.Checksum.{xor}

-- the low `n` bits
unfoldable pub low : ℕ → ℕ → ℕ
low zero x = 0
low (suc n) x = x % 2 + 2 * low n (x / 2)

pub xor_same_left : (n c a b : ℕ) → xor n c a ≡ xor n c b → low n a ≡ low n b
unfolding xor low
xor_same_left zero c a b e = refl
xor_same_left (suc n) c a b e =
    let rest = xor_same_left n (c / 2) (a / 2) (b / 2) (omega (arith, e)) in omega (arith, e, rest)

pub xor_same_right : (n a b c : ℕ) → xor n a c ≡ xor n b c → low n a ≡ low n b
unfolding xor low
xor_same_right zero a b c e = refl
xor_same_right (suc n) a b c e =
    let rest = xor_same_right n (a / 2) (b / 2) (c / 2) (omega (arith, e)) in omega (arith, e, rest)

-- where the one word has no low bits, the other one's remain
pub low-xor : (k n a b : ℕ) → k ≤ n → low k a ≡ 0 → low k (xor n a b) ≡ low k b
unfolding xor low
low-xor zero n a b h e = refl
low-xor (suc k) zero a b h e = absurd (omega (arith, h))
low-xor (suc k) (suc n) a b h e =
    let rest = low-xor k n (a / 2) (b / 2) (omega (arith, h)) (omega (arith, e)) in
    let half : ((a + b) % 2 + 2 * xor n (a / 2) (b / 2)) / 2 ≡ xor n (a / 2) (b / 2) =
      omega arith in
    rw half (omega (arith, e, rest))

pub xor_bound : (n a b : ℕ) → xor n a b < 2 ^ n
unfolding xor
xor_bound zero a b = omega arith
xor_bound (suc n) a b = let rest = xor_bound n (a / 2) (b / 2) in omega (arith, rest)

pub low_double : (n x y : ℕ) → x ≡ 2 * y → low (suc n) x ≡ 2 * low n y
unfolding low
low_double n x y e = let half : x / 2 ≡ y = omega (arith, e) in rw half (omega (arith, e))

pub low_all : (x : ℕ) → x < 2 ^ 8 → low 8 x ≡ x
unfolding low
low_all x h = omega (arith, h)

pub low_word : (x : ℕ) → x < 2 ^ 32 → low 32 x ≡ x
unfolding low
low_word x h = omega (arith, h)
