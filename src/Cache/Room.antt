-- ===== src/Cache/Room.antt =====
-- When an allocation succeeds, and what it hands out.
use native.Mathlib.Decide.{dec_lt}
use ltfs.Prelude.{
  ℕ, zero, suc, ◌+◌, ◌-◌, ◌≤◌, ◌<◌, ◌≡◌, ◌≢◌, ◌↔◌, ◌⊎◌, refl, true, false, Option, none, some, List,
  [], ◌∷◌, arith, ◌==◌, inl, inr, min,
}
use ltfs.Cache.{
  CacheObject, CachePool, is_empty, has_room, hand_out, new_size, grow, hand_out_last, allocate_new,
  allocate_from, allocate,
}
use ltfs.Cache.Counts.{times, find-eq-some, find-times}
use ltfs.Cache.Invariant.{IsPool, Grown-IsPool, new_size-bounds, grow-Grown, grow-last}

-- An object that a call hands out: nobody held it, now its caller does, and the others are held
-- as before.
pub record IsHandedOut (a : ℕ) (p q : CachePool) : Type 0 where
  pub free : times a p.held ≡ 0
  pub taken : times a q.held ≡ 1
  pub others : (b : ℕ) → b ≢ a → times b q.held ≡ times b p.held

-- what a call of `cache_manager_allocate_object` comes to: an object, or NULL with all as it was
abbrev pub Allocates : CachePool → CachePool × Option ℕ → Type 0
Allocates p (q, none) = q ≡ p
Allocates p (q, some a) = IsHandedOut a p q

hand_out-IsHandedOut :
    (o : CacheObject) (p q : CachePool)
    → 1 ≤ times o.address q.pool
    → IsPool q
    → q.held ≡ p.held
    → IsHandedOut o.address p (hand_out o q)
unfolding hand_out times
hand_out-IsHandedOut o p q h v e =
    let free : times o.address p.held ≡ 0 = rw (← e) (omega (arith, v.once o.address)) in
    record { free = free; taken = rw e (ground (arith, free)); others = λ b n. rw e (ground arith) }

-- the object that was created last is handed out
last-Allocates :
    (p : CachePool) (r : CachePool × Option ℕ) (a : ℕ)
    → r.1 ≡ some a
    → IsPool r.0
    → r.0.held ≡ p.held
    → 1 ≤ times a r.0.pool
    → Allocates p (hand_out_last r) × ((hand_out_last r).1 ≢ none)
unfolding hand_out_last
last-Allocates p (q, none) a e v h t = absurd (cc e)
last-Allocates p (q, some b) a e v h t =
    let same : b ≡ a = ground (arith, e) in
    let (o, f) = find-times b q.pool (rw same t) in
    let (at, there) = find-eq-some b q.pool o f in
    rw (f, ← at, hand_out_last) (hand_out-IsHandedOut o p q (rw at there) v h, λ n. absurd (cc n))

-- the loop creates nothing
grow-none :
    (rounds grants : ℕ) (p : CachePool) (last : Option ℕ)
    → min rounds grants ≡ 0
    → grow rounds grants p last ≡ (p, last)
unfolding grow
grow-none zero grants p last h = refl
grow-none (suc rounds) zero p last h = refl
grow-none (suc rounds) (suc grants) p last h = absurd (omega arith)

-- there is nothing to grow only from 0 to 1
new_size-le :
    (p : CachePool)
    → IsPool p
    → p.current_capacity < p.max_capacity
    → (new_size p ≤ p.current_capacity) ↔ ((p.current_capacity ≡ 0) × (p.max_capacity ≡ 1))
unfolding new_size
new_size-le p v h = (λ l. ground (arith, v.word), λ l. ground (arith, l.0, l.1))

-- why a call returns NULL
abbrev pub IsDenied : ℕ → CachePool → Type 0
IsDenied grants p =
    (has_room p ≡ false)
    ⊎ ((is_empty p.pool ≡ true)
        × ((grants ≡ 0) ⊎ ((p.current_capacity ≡ 0) × (p.max_capacity ≡ 1))))

-- the result of a call, and when it is NULL
pub record Answers (grants : ℕ) (p : CachePool) (r : CachePool × Option ℕ) : Type 0 where
  pub result : Allocates p r
  pub denied : (r.1 ≡ none) ↔ IsDenied grants p

module _ (grants : ℕ) (p : CachePool) (v : IsPool p) (e : p.pool ≡ [])
    (h : p.current_capacity < p.max_capacity) where
  abbrev created : ℕ
  created = min (new_size p - p.current_capacity) grants

  empty_lem : is_empty p.pool ≡ true
  unfolding is_empty
  empty_lem = rw e

  room_lem : has_room p ≡ true
  unfolding has_room
  room_lem = rw e (ground arith)

  none-Answers :
      created ≡ 0
      → Answers grants p (hand_out_last (grow (new_size p - p.current_capacity) grants p none))
  unfolding hand_out_last
  none-Answers c =
      let reason : (grants ≡ 0) ⊎ (new_size p ≤ p.current_capacity) = grind arith in
      rw (grow-none _ grants p none c) (record {
        result = refl;
        denied = (
          λ _.
              inr
                (empty_lem, elim reason [ inl z ↦ inl z | inr l ↦ inr ((new_size-le p v h).0 l) ]),
          λ _. refl,
        );
      })

  not-IsDenied : 1 ≤ created → ¬ IsDenied grants p
  not-IsDenied c (inl n) = cc (n, room_lem)
  not-IsDenied c (inr (_, inl z)) = omega arith
  not-IsDenied c (inr (_, inr l)) = let small = (new_size-le p v h).1 l in omega arith

  some-Answers :
      1 ≤ created
      → Answers grants p (hand_out_last (grow (new_size p - p.current_capacity) grants p none))
  unfolding hand_out_last
  some-Answers c =
      let rounds = new_size p - p.current_capacity in
      let g = grow-Grown rounds grants p none in
      let last : (grow rounds grants p none).1 ≡ some (p.next + created - 1) =
        ground (arith, grow-last rounds grants p none) in
      let bound = new_size-bounds p v (λ q. absurd (omega (arith, q))) in
      let valid = Grown-IsPool created p _ g v (omega (arith, bound)) in
      let (result, given) =
        last-Allocates p _ (p.next + created - 1) last valid g.held
          (ground (arith, g.pool (p.next + created - 1))) in
      record { result = result; denied = (λ n. absurd (given n), λ d. absurd (not-IsDenied c d)) }

allocate_new-Answers :
    (grants : ℕ) (p : CachePool) → p.pool ≡ [] → IsPool p → Answers grants p (allocate_new grants p)
unfolding allocate_new has_room is_empty
allocate_new-Answers grants p e v = elim (dec_lt p.current_capacity p.max_capacity) [
  | yes h ↦
      let differ : (p.current_capacity == p.max_capacity) ≡ false = ground arith in
      rw (differ, allocate_new)
        (elim (dec_lt 0 (min (new_size p - p.current_capacity) grants)) [
          | yes c ↦ some-Answers grants p v e h c
          | no c ↦ none-Answers grants p v e h (omega arith)
        ])
  | no h ↦
      let full : p.current_capacity ≡ p.max_capacity = omega (arith, v.high) in
      let equal : (p.current_capacity == p.max_capacity) ≡ true = ground arith in
      rw (equal, allocate_new)
        (record { result = refl; denied = (λ _. inl (rw e (ground arith)), λ _. refl) })
]

allocate_from-Answers :
    (os : List CacheObject) (grants : ℕ) (p : CachePool)
    → p.pool ≡ os
    → IsPool p
    → Answers grants p (allocate_from os grants p)
unfolding allocate_from has_room is_empty times
allocate_from-Answers [] grants p e v = allocate_new-Answers grants p e v
allocate_from-Answers (o ∷ rest) grants p e v = record {
  result = hand_out-IsHandedOut (record o { refcount = 1 }) p p (rw e (ground arith)) v refl;
  denied = (λ n. absurd (cc n), λ d. absurd (not-denied d));
}
  where
    not-denied : ¬ IsDenied grants p
    not-denied (inl n) = cc (rw e at n)
    not-denied (inr (n, _)) = cc (rw e at n)

-- An allocation from a pool whose accounts are right either hands out an object that nobody held,
-- and leaves the other objects with those who hold them, or returns NULL and leaves the pool as it
-- was. It returns NULL exactly if the pool has no room, or if it holds no object and there is no
-- memory for one or it should grow from a capacity of 0 to 1.
pub allocate-Answers :
    (grants : ℕ) (p : CachePool) → IsPool p → Answers grants p (allocate grants p)
unfolding allocate
allocate-Answers grants p v = allocate_from-Answers p.pool grants p refl v
