-- ===== src/Prelude/Lists.antt =====
-- Lists measured and indexed by native numbers, under the library's names.
use Prim.Native.Nat.{ℕ, zero, suc, ◌+◌}
use mathlib.Core.Path.{◌≡◌, refl, ap}
use mathlib.Core.List.{List, [], ◌∷◌, ◌++◌}
use native.Mathlib.Omega.{arith}

module _ {ℓ} {A : Type ℓ} where
  abbrev pub length : List A → ℕ
  length [] = 0
  length (x ∷ xs) = suc (length xs)

  abbrev pub get_or : List A → ℕ → A → A
  get_or [] i d = d
  get_or (x ∷ xs) zero d = x
  get_or (x ∷ xs) (suc i) d = get_or xs i d

  abbrev pub take : ℕ → List A → List A
  take zero xs = []
  take (suc n) [] = []
  take (suc n) (x ∷ xs) = x ∷ take n xs

  abbrev pub drop : ℕ → List A → List A
  drop zero xs = xs
  drop (suc n) [] = []
  drop (suc n) (x ∷ xs) = drop n xs

  abbrev pub replicate : ℕ → A → List A
  replicate zero a = []
  replicate (suc n) a = a ∷ replicate n a

  pub length-append : (xs ys : List A) → length (xs ++ ys) ≡ length xs + length ys
  length-append [] ys = omega arith
  length-append (x ∷ xs) ys = omega (arith, length-append xs ys)

  -- what stands `n` places behind a prefix
  pub drop_past : (xs ys : List A) (n k : ℕ) → k ≡ length xs + n → drop k (xs ++ ys) ≡ drop n ys
  drop_past [] ys n k e = let e' : k ≡ n = omega arith in rw e'
  drop_past (x ∷ xs) ys n zero e = absurd (omega arith)
  drop_past (x ∷ xs) ys n (suc k) e = drop_past xs ys n k (omega arith)

  pub get_or_past :
      (xs ys : List A) (n k : ℕ) (d : A) → k ≡ length xs + n → get_or (xs ++ ys) k d ≡ get_or ys n d
  get_or_past [] ys n k d e = let e' : k ≡ n = omega arith in rw e'
  get_or_past (x ∷ xs) ys n zero d e = absurd (omega arith)
  get_or_past (x ∷ xs) ys n (suc k) d e = get_or_past xs ys n k d (omega arith)

  pub take_prefix : (xs ys : List A) (k : ℕ) → k ≡ length xs → take k (xs ++ ys) ≡ xs
  take_prefix [] ys zero e = refl
  take_prefix [] ys (suc k) e = absurd (omega arith)
  take_prefix (x ∷ xs) ys zero e = absurd (omega arith)
  take_prefix (x ∷ xs) ys (suc k) e = ap (◌∷◌ x) (take_prefix xs ys k (omega arith))
