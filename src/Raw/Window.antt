-- ===== src/Raw/Window.antt =====
-- The values of a function at consecutive numbers, as a list.
use ltfs.Prelude.{
  ℕ, zero, suc, ◌+◌, ◌≤◌, ◌<◌, ◌≡◌, refl, ap, List, [], ◌∷◌, ◌++◌, length, take, drop, get_or,
  replicate, arith,
}

-- the values at `x` and the `n - 1` numbers behind it
abbrev pub window : (ℕ → ℕ) → ℕ → ℕ → List ℕ
window f x zero = []
window f x (suc n) = f x ∷ window f (suc x) n

pub window-add :
    (f : ℕ → ℕ) (x m y n k : ℕ)
    → y ≡ x + m
    → k ≡ m + n
    → window f x m ++ window f y n ≡ window f x k
window-add f x zero y n k e h =
    let e' : y ≡ x = omega arith in let h' : k ≡ n = omega arith in rw (e', h') refl
window-add f x (suc m) y n zero e h = absurd (omega arith)
window-add f x (suc m) y n (suc k) e h =
    ap (◌∷◌ (f x)) (window-add f (suc x) m y n k (omega arith) (omega arith))

pub length-window : (f : ℕ → ℕ) (x n : ℕ) → length (window f x n) ≡ n
length-window f x zero = refl
length-window f x (suc n) = ap suc (length-window f (suc x) n)

pub replicate-window :
    (f : ℕ → ℕ) (a x n : ℕ) → ((y : ℕ) → x ≤ y → y < x + n → f y ≡ a) → replicate n a ≡ window f x n
replicate-window f a x zero h = refl
replicate-window f a x (suc n) h =
    rw (h x (omega arith) (omega arith))
      (ap (◌∷◌ a) (replicate-window f a (suc x) n (λ y k l. h y (omega arith) (omega arith))))

pub window_ext :
    (f g : ℕ → ℕ) (x n : ℕ)
    → ((y : ℕ) → x ≤ y → y < x + n → f y ≡ g y)
    → window f x n ≡ window g x n
window_ext f g x zero h = refl
window_ext f g x (suc n) h =
    rw (h x (omega arith) (omega arith))
      (ap (◌∷◌ (g x)) (window_ext f g (suc x) n (λ y k l. h y (omega arith) (omega arith))))

drop-cons : (xs : List ℕ) (r : ℕ) → r < length xs → drop r xs ≡ get_or xs r 0 ∷ drop (suc r) xs
drop-cons [] r h = absurd (omega arith)
drop-cons (x ∷ xs) zero h = refl
drop-cons (x ∷ xs) (suc r) h = drop-cons xs r (omega arith)

-- what is copied out of a block: `n` bytes from its offset `r` on
pub take-drop-window :
    (f : ℕ → ℕ) (xs : List ℕ) (r x n : ℕ)
    → r + n ≤ length xs
    → ((a b : ℕ) → a + x ≡ b + r → r ≤ a → a < r + n → get_or xs a 0 ≡ f b)
    → take n (drop r xs) ≡ window f x n
take-drop-window f xs r x zero h k = refl
take-drop-window f xs r x (suc n) h k =
    rw (drop-cons xs r (omega arith), k r x (omega arith) (omega arith) (omega arith))
      (ap (◌∷◌ (f x)) (
        take-drop-window f xs (suc r) (suc x) n (omega arith)
          (λ a b e l m. k a b (omega arith) (omega arith) (omega arith))))
