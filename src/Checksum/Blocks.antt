-- ===== src/Checksum/Blocks.antt =====
-- A block with its checksum passes the check, and one with a changed byte does not.
use ltfs.Prelude.{
  ltb, ◌%◌, true, ℕ, zero, suc, ◌+◌, ◌^◌, ◌≤◌, ◌<◌, ◌≡◌, ◌≢◌, inl, inr, refl, sym, ◌∙◌, ap, arith,
  ◌==◌, Bool-cases, List, [], ◌∷◌, ◌++◌, take, drop, length, take_prefix, drop_past, length-append,
  if◌then◌else◌,
}
use ltfs.Checksum.{
  ℤ, pos, to_int, minus_one, enc4, checksum, u32tobe, betou32, rs_gf256_enc, rs_gf256_check,
  memcpy_rs_gf256_enc, memcpy_rs_gf256_check,
}
use ltfs.Checksum.Steps.{enc4_bound, enc4_same_byte, enc4_same_reg}

checksum_bound : (bytes : List ℕ) (reg : ℕ) → reg < 2 ^ 32 → checksum reg bytes < 2 ^ 32
unfolding checksum
checksum_bound [] reg h = h
checksum_bound (x ∷ bytes) reg h = checksum_bound bytes (enc4 x reg) (enc4_bound x reg)

-- behind the same bytes, equal registers come from equal ones
checksum_same :
    (bytes : List ℕ) (r s : ℕ)
    → r < 2 ^ 32
    → s < 2 ^ 32
    → checksum r bytes ≡ checksum s bytes
    → r ≡ s
unfolding checksum
checksum_same [] r s h k e = e
checksum_same (x ∷ bytes) r s h k e =
    enc4_same_byte x r s h k
      (checksum_same bytes (enc4 x r) (enc4 x s) (enc4_bound x r) (enc4_bound x s) e)

checksum_changed :
    (front back : List ℕ) (a b reg : ℕ)
    → a < 256
    → b < 256
    → checksum reg (front ++ (a ∷ back)) ≡ checksum reg (front ++ (b ∷ back))
    → a ≡ b
unfolding checksum
checksum_changed [] back a b reg h k e =
    enc4_same_reg a b reg h k
      (checksum_same back (enc4 a reg) (enc4 b reg) (enc4_bound a reg) (enc4_bound b reg) e)
checksum_changed (x ∷ front) back a b reg h k e = checksum_changed front back a b (enc4 x reg) h k e

betou32-u32tobe : (x : ℕ) (rest : List ℕ) → x < 2 ^ 32 → betou32 (u32tobe x ++ rest) ≡ x
unfolding betou32 u32tobe
betou32-u32tobe x rest h = omega (arith, h)

length-take : (n : ℕ) (buf : List ℕ) → n ≤ length buf → length (take n buf) ≡ n
length-take zero buf h = refl
length-take (suc n) [] h = absurd (omega (arith, h))
length-take (suc n) (x ∷ buf) h = ap suc (length-take n buf (omega (arith, h)))

check_at :
    (bytes rest : List ℕ) (n : ℕ)
    → n ≡ length bytes
    → rs_gf256_check (bytes ++ rest) n
      ≡ (if betou32 rest == checksum 0 bytes then to_int n else minus_one)
unfolding rs_gf256_check
check_at bytes rest n e =
    rw (take_prefix bytes rest n e, drop_past bytes rest 0 n (omega (arith, e))) refl

accepted :
    (bytes rest : List ℕ) (n : ℕ)
    → n ≡ length bytes
    → rs_gf256_check (bytes ++ (u32tobe (checksum 0 bytes) ++ rest)) n ≡ to_int n
accepted bytes rest n e =
    let same : (betou32 (u32tobe (checksum 0 bytes) ++ rest) == checksum 0 bytes) ≡ true =
      let back = betou32-u32tobe (checksum 0 bytes) rest (checksum_bound bytes 0 (omega arith)) in
      ground (arith, back) in
    check_at bytes (u32tobe (checksum 0 bytes) ++ rest) n e ∙ rw same refl

memcpy_parts :
    (dest src : List ℕ) (n : ℕ)
    → memcpy_rs_gf256_check dest src n ≡ (rs_gf256_check src n, take n src ++ drop n dest)
unfolding memcpy_rs_gf256_check rs_gf256_check
memcpy_parts dest src n = refl

stored : (x y : ℕ) (z : ℤ) → (if x == y then z else minus_one) ≢ minus_one → x ≡ y
stored x y z = elim (Bool-cases (x == y)) [
  | inl t ↦ λ e. ground (arith, t)
  | inr f ↦ rw f (λ e. absurd (e refl))
]

to_int-small : (n : ℕ) → n < 2 ^ 31 → to_int n ≡ pos n
unfolding to_int
to_int-small n h =
    let same : n % 2 ^ 32 ≡ n = omega (arith, h) in
    rw same (let small : ltb n (2 ^ 31) ≡ true = ground (arith, h) in rw small refl)

-- For fewer than 2^31 bytes, all of which the source has: the check accepts a buffer that the encoder
-- has worked on, and gives the number of its bytes; the bytes that are copied with their checksum, and
-- copied again with the check, are accepted as well, are those of the source, and what is behind them
-- in the target is untouched.
pub check-enc :
    (buf src dest other : List ℕ) (n : ℕ)
    → n < 2 ^ 31
    → n ≤ length buf
    → n ≤ length src
    → (rs_gf256_check (rs_gf256_enc buf n) n ≡ pos n)
      × (memcpy_rs_gf256_check other (memcpy_rs_gf256_enc dest src n) n
          ≡ (pos n, take n src ++ drop n other))
unfolding rs_gf256_enc memcpy_rs_gf256_enc
check-enc buf src dest other n fits h k =
    let e = sym (length-take n src k) in
    (
      accepted (take n buf) (drop (n + 4) buf) n (sym (length-take n buf h)) ∙ to_int-small n fits,
      memcpy_parts other (memcpy_rs_gf256_enc dest src n) n
          ∙ (rw
              (
                accepted (take n src) (drop (n + 4) dest) n e,
                to_int-small n fits,
                take_prefix (take n src) (u32tobe (checksum 0 (take n src)) ++ drop (n + 4) dest) n
                    e,
              )
              refl),
    )

-- A block for which the check returns anything but -1 is refused with -1 when one of its bytes is
-- another one, whatever that is and wherever it stands.
pub check-detects :
    (front back rest : List ℕ) (a b n : ℕ)
    → a < 256
    → b < 256
    → a ≢ b
    → n ≡ length front + suc (length back)
    → rs_gf256_check ((front ++ (a ∷ back)) ++ rest) n ≢ minus_one
    → rs_gf256_check ((front ++ (b ∷ back)) ++ rest) n ≡ minus_one
check-detects front back rest a b n h k differ e good =
    let len_a : n ≡ length (front ++ (a ∷ back)) =
      omega (arith, e, length-append front (a ∷ back)) in
    let len_b : n ≡ length (front ++ (b ∷ back)) =
      omega (arith, e, length-append front (b ∷ back)) in
    let was =
      stored (betou32 rest) (checksum 0 (front ++ (a ∷ back))) (to_int n)
        (λ z. good (check_at (front ++ (a ∷ back)) rest n len_a ∙ z)) in
    elim (Bool-cases (betou32 rest == checksum 0 (front ++ (b ∷ back)))) [
      | inr f ↦ check_at (front ++ (b ∷ back)) rest n len_b ∙ rw f refl
      | inl t ↦
          let now : betou32 rest ≡ checksum 0 (front ++ (b ∷ back)) = ground (arith, t) in
          absurd (differ (checksum_changed front back a b 0 h k (sym was ∙ now)))
    ]
