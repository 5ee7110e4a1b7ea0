-- ===== src/Locks/Totals.antt =====
-- Families indexed by the threads: a change at one thread, and a weight summed over all of them.
use ltfs.Prelude.{
  ℕ, zero, suc, ◌+◌, ◌≤◌, ◌<◌, ◌≡◌, ◌≢◌, refl, arith, true, ◌==◌, if◌then◌else◌, Bool-cases, inl,
  inr,
}
use native.Mathlib.Decide.{dec_lt}

-- the family with another value for one thread
abbrev pub with_pc {ℓ} : {A : Type ℓ} → ℕ → A → (ℕ → A) → ℕ → A
with_pc thread value family other = if other == thread then value else family other

module _ {ℓ} {A : Type ℓ} (weight : A → ℕ) where
  pub total : ℕ → (ℕ → A) → ℕ
  total zero f = 0
  total (suc n) f = weight (f n) + total n f

  total-same : (f g : ℕ → A) (n : ℕ) → ((j : ℕ) → j < n → g j ≡ f j) → total n g ≡ total n f
  unfolding total
  total-same f g zero h = refl
  total-same f g (suc n) h =
      rw (h n (omega arith), total-same f g n (λ j k. h j (omega (arith, k)))) refl

  -- Two families that differ at one thread: their sums differ as its weights do.
  total-differ :
      (f g : ℕ → A) (i n : ℕ)
      → ((j : ℕ) → j ≢ i → g j ≡ f j)
      → i < n
      → weight (f i) + total n g ≡ weight (g i) + total n f
  unfolding total
  total-differ f g i zero h k = absurd (omega arith)
  total-differ f g i (suc n) h k = elim (dec_lt i n) [
    | yes l ↦
        let last : g n ≡ f n = h n (λ e. omega (arith, e, l)) in
        rw last (omega (arith, total-differ f g i n h l))
    | no l ↦
        let here : i ≡ n = omega arith in
        let rest = total-same f g n (λ j m. h j (λ e. omega (arith, e, m, here))) in
        rw here (omega (arith, rest))
  ]

  with_pc_other : (i : ℕ) (a : A) (f : ℕ → A) (j : ℕ) → j ≢ i → with_pc i a f j ≡ f j
  with_pc_other i a f j e = elim (Bool-cases (j == i)) [
    | inl t ↦ absurd (ground (arith, t, e))
    | inr n ↦ rw n refl
  ]

  -- An assignment at one thread changes the sum by the change of its weight.
  pub total-with_pc :
      (i : ℕ) (a : A) (f : ℕ → A) (n : ℕ)
      → i < n
      → total n (with_pc i a f) + weight (f i) ≡ total n f + weight a
  total-with_pc i a f n k =
      let here : (i == i) ≡ true = ground arith in
      let d = total-differ f (with_pc i a f) i n (λ j e. with_pc_other i a f j e) k in
      let d2 = (rw here at d) in omega (arith, d2)

  pub weight-le-total : (n : ℕ) (f : ℕ → A) (i : ℕ) → i < n → weight (f i) ≤ total n f
  unfolding total
  weight-le-total zero f i h = absurd (omega arith)
  weight-le-total (suc n) f i h = elim (dec_lt i n) [
    | yes k ↦ omega (arith, weight-le-total n f i k)
    | no k ↦ let e : i ≡ n = omega arith in rw e (omega arith)
  ]

  -- Two threads whose weights count in the sum.
  pub two-le-total :
      (n : ℕ) (f : ℕ → A) (i j : ℕ) → i < j → j < n → weight (f i) + weight (f j) ≤ total n f
  unfolding total
  two-le-total zero f i j h k = absurd (omega arith)
  two-le-total (suc n) f i j h k = elim (dec_lt j n) [
    | yes l ↦ omega (arith, two-le-total n f i j h l)
    | no l ↦
        let e : j ≡ n = omega arith in rw e (omega (arith, weight-le-total n f i (omega arith)))
  ]

  -- a thread that has some weight
  pub someone : (n : ℕ) (f : ℕ → A) → 0 < total n f → (i : ℕ) × (i < n) × (0 < weight (f i))
  unfolding total
  someone zero f h = absurd (omega arith)
  someone (suc n) f h = elim (dec_lt 0 (weight (f n))) [
    | yes k ↦ (n, omega arith, k)
    | no k ↦ let (i, l, w) = someone n f (omega arith) in (i, omega arith, w)
  ]

  pub total-none : (n : ℕ) (a : A) → weight a ≡ 0 → total n (λ _. a) ≡ 0
  unfolding total
  total-none zero a h = refl
  total-none (suc n) a h = omega (arith, total-none n a h)

-- Two weights of which every thread has one at most.
pub total-total-le {ℓ} :
    {A : Type ℓ} (v w : A → ℕ) (n : ℕ) (f : ℕ → A)
    → ((a : A) → v a + w a ≤ 1)
    → total v n f + total w n f ≤ n
unfolding total
total-total-le v w zero f h = omega arith
total-total-le v w (suc n) f h = omega (arith, total-total-le v w n f h, h (f n))
