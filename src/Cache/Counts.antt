-- ===== src/Cache/Counts.antt =====
-- How often an object stands in a list, and what the operations on lists do to it.
use ltfs.Prelude.{
  ℕ, ◌+◌, ◌-◌, ◌≤◌, ◌≡◌, refl, some, List, [], ◌∷◌, ◌++◌, arith, length, ◌==◌, if◌then◌else◌,
  Bool-cases, inl, inr,
}
use ltfs.Cache.{CacheObject, remove, find, set_refcount}

unfoldable pub times : ℕ → List CacheObject → ℕ
times a [] = 0
times a (o ∷ os) = (if o.address == a then 1 else 0) + times a os

pub times-append : (a : ℕ) (os ps : List CacheObject) → times a (os ++ ps) ≡ times a os + times a ps
unfolding times
times-append a [] ps = omega arith
times-append a (o ∷ os) ps = omega (arith, times-append a os ps)

pub times-remove :
    (a b : ℕ) (os : List CacheObject)
    → times b (remove a os) ≡ times b os - (if a == b then 1 else 0)
unfolding times remove
times-remove a b [] = ground arith
times-remove a b (o ∷ os) = ground (arith, times-remove a b os)

pub length-remove :
    (a : ℕ) (os : List CacheObject) → 1 ≤ times a os → length (remove a os) + 1 ≡ length os
unfolding times remove
length-remove a [] h = absurd (omega arith)
length-remove a (o ∷ os) h = ground (arith, length-remove a os)

pub times-set_refcount :
    (a b n : ℕ) (os : List CacheObject) → times b (set_refcount a n os) ≡ times b os
unfolding times set_refcount
times-set_refcount a b n [] = refl
times-set_refcount a b n (o ∷ os) = ground (arith, times-set_refcount a b n os)

pub length-set_refcount :
    (a n : ℕ) (os : List CacheObject) → length (set_refcount a n os) ≡ length os
unfolding set_refcount
length-set_refcount a n [] = refl
length-set_refcount a n (o ∷ os) = ground (arith, length-set_refcount a n os)

pub find-eq-some :
    (a : ℕ) (os : List CacheObject) (o : CacheObject)
    → find a os ≡ some o
    → (o.address ≡ a) × (1 ≤ times a os)
unfolding times find
find-eq-some a [] o h = absurd (cc h)
find-eq-some a (x ∷ os) o h = ground (arith, find-eq-some a os o)

pub find-times :
    (a : ℕ) (os : List CacheObject) → 1 ≤ times a os → (o : CacheObject) × (find a os ≡ some o)
unfolding times find
find-times a [] h = absurd (omega arith)
find-times a (x ∷ os) h = elim (Bool-cases (x.address == a)) [
  | inl e ↦ (x, rw e)
  | inr e ↦ let (o, f) = find-times a os (ground arith) in (o, rw e f)
]
