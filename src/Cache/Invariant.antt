-- ===== src/Cache/Invariant.antt =====
-- The accounts of the pool: no object is in two places, and the capacity counts them all.
use ltfs.Prelude.{
  ℕ, zero, suc, ◌+◌, ◌-◌, ◌%◌, ◌^◌, ◌≤◌, ◌<◌, ◌≡◌, ◌≢◌, refl, Option, none, some, List, [], ◌∷◌,
  arith, length, length-append, ltb, ◌==◌, if◌then◌else◌, Bool-cases, Option-cases, inl, inr, min,
}
use ltfs.Cache.{
  CacheObject, CachePool, new_object, find, create_object, fill, init, hand_out, new_size, grow,
  hand_out_last, allocate_new, allocate_from, allocate, clear_bytes, set_refcount, get_object,
  give_back, free_object,
}
use ltfs.Cache.Counts.{
  times, times-append, times-remove, length-remove, times-set_refcount, length-set_refcount,
  find-eq-some,
}

-- each object is in the pool or held, once; the capacity is their number, between its two bounds
pub record IsPool (p : CachePool) : Type 0 where
  pub once : (a : ℕ) → times a p.pool + times a p.held ≤ 1
  pub old : (a : ℕ) → p.next ≤ a → times a p.pool + times a p.held ≡ 0
  pub counted : length p.pool + length p.held ≡ p.current_capacity
  pub low : p.initial_capacity ≤ p.current_capacity
  pub high : p.current_capacity ≤ p.max_capacity
  pub word : p.max_capacity < 2 ^ 63

-- `k` objects more in the pool
pub record Grown (k : ℕ) (p q : CachePool) : Type 0 where
  pub pool :
      (a : ℕ)
      → times a q.pool
        ≡ times a p.pool + (if ltb a p.next then 0 else if ltb a (p.next + k) then 1 else 0)
  pub size : length q.pool ≡ length p.pool + k
  pub held : q.held ≡ p.held
  pub next : q.next ≡ p.next + k
  pub current_capacity : q.current_capacity ≡ p.current_capacity + k
  pub initial_capacity : q.initial_capacity ≡ p.initial_capacity
  pub max_capacity : q.max_capacity ≡ p.max_capacity

pub grow-Grown :
    (rounds grants : ℕ) (p : CachePool) (last : Option ℕ)
    → Grown (min rounds grants) p (grow rounds grants p last).0
unfolding grow create_object times
grow-Grown zero grants p last = record {
  pool = λ a. ground arith;
  size = omega arith;
  held = refl;
  next = omega arith;
  current_capacity = omega arith;
  initial_capacity = refl;
  max_capacity = refl;
}
grow-Grown (suc rounds) zero p last = record {
  pool = λ a. ground arith;
  size = omega arith;
  held = refl;
  next = omega arith;
  current_capacity = omega arith;
  initial_capacity = refl;
  max_capacity = refl;
}
grow-Grown (suc rounds) (suc grants) p last =
    let q : CachePool = record (create_object p) { current_capacity = p.current_capacity + 1 } in
    let g = grow-Grown rounds grants q (some p.next) in
    record {
      pool = λ a. ground (arith, g.pool a, times-append a p.pool (new_object p ∷ []));
      size = omega (arith, g.size, length-append p.pool (new_object p ∷ []));
      held = g.held;
      next = omega (arith, g.next);
      current_capacity = omega (arith, g.current_capacity);
      initial_capacity = g.initial_capacity;
      max_capacity = g.max_capacity;
    }

pub grow-last :
    (rounds grants : ℕ) (p : CachePool) (last : Option ℕ)
    → (grow rounds grants p last).1
      ≡ (if min rounds grants == 0 then last else some (p.next + min rounds grants - 1))
unfolding grow create_object
grow-last zero grants p last = ground arith
grow-last (suc rounds) zero p last = ground arith
grow-last (suc rounds) (suc grants) p last = ground (
  arith,
  grow-last rounds grants (record (create_object p) { current_capacity = p.current_capacity + 1 })
      (some p.next),
)

pub Grown-IsPool :
    (k : ℕ) (p q : CachePool)
    → Grown k p q
    → IsPool p
    → p.current_capacity + k ≤ p.max_capacity
    → IsPool q
Grown-IsPool k p q g v h = record {
  once = λ a. rw g.held (ground (arith, g.pool a, v.once a, v.old a));
  old = λ a l. rw g.held (ground (arith, g.pool a, v.old a, g.next));
  counted = rw g.held (omega (arith, g.size, g.current_capacity, v.counted));
  low = omega (arith, g.current_capacity, g.initial_capacity, v.low);
  high = omega (arith, g.current_capacity, g.max_capacity);
  word = omega (arith, g.max_capacity, v.word);
}

-- an object of the pool goes to a caller
hand_out-IsPool :
    (o : CacheObject) (p : CachePool)
    → 1 ≤ times o.address p.pool
    → IsPool p
    → IsPool (hand_out o p)
unfolding hand_out times
hand_out-IsPool o p h v = record {
  once = λ a. ground (arith, times-remove o.address a p.pool, v.once a);
  old = λ a l. ground (arith, times-remove o.address a p.pool, v.old a l);
  counted = omega (arith, length-remove o.address p.pool h, v.counted);
  low = v.low;
  high = v.high;
  word = v.word;
}

pub new_size-bounds :
    (p : CachePool) → IsPool p → p.current_capacity ≢ p.max_capacity → new_size p ≤ p.max_capacity
unfolding new_size
new_size-bounds p v h = ground (arith, v.word, v.high)

hand_out_last-IsPool : (r : CachePool × Option ℕ) → IsPool r.0 → IsPool (hand_out_last r).0
unfolding hand_out_last
hand_out_last-IsPool (p, none) v = v
hand_out_last-IsPool (p, some a) v = elim (Option-cases (find a p.pool)) [
  | inl e ↦ rw (e, hand_out_last) v
  | inr (o, e) ↦
      let (at, there) = find-eq-some a p.pool o e in
      rw (e, hand_out_last) (hand_out-IsPool o p (rw at there) v)
]

allocate_new-IsPool : (grants : ℕ) (p : CachePool) → IsPool p → IsPool (allocate_new grants p).0
unfolding allocate_new
allocate_new-IsPool grants p v = elim (Bool-cases (p.current_capacity == p.max_capacity)) [
  | inl e ↦ rw e v
  | inr e ↦
      let bound = new_size-bounds p v (ground (arith, e)) in
      let g = grow-Grown (new_size p - p.current_capacity) grants p none in
      rw e (hand_out_last-IsPool _ (Grown-IsPool _ p _ g v (omega (arith, v.high))))
]

allocate_from-IsPool :
    (os : List CacheObject) (grants : ℕ) (p : CachePool)
    → os ≡ p.pool
    → IsPool p
    → IsPool (allocate_from os grants p).0
unfolding allocate_from times
allocate_from-IsPool [] grants p e v = allocate_new-IsPool grants p v
allocate_from-IsPool (o ∷ rest) grants p e v =
    hand_out-IsPool (record o { refcount = 1 }) p (rw (← e) (ground arith)) v

allocate-IsPool : (grants : ℕ) (p : CachePool) → IsPool p → IsPool (allocate grants p).0
unfolding allocate
allocate-IsPool grants p v = allocate_from-IsPool p.pool grants p refl v

set_refcount-IsPool :
    (a n : ℕ) (p : CachePool) → IsPool p → IsPool (record p { held = set_refcount a n p.held })
set_refcount-IsPool a n p v = record {
  once = λ b. omega (arith, times-set_refcount a b n p.held, v.once b);
  old = λ b l. omega (arith, times-set_refcount a b n p.held, v.old b l);
  counted = omega (arith, length-set_refcount a n p.held, v.counted);
  low = v.low;
  high = v.high;
  word = v.word;
}

give_back-IsPool :
    (o : CacheObject) (count : ℕ) (p : CachePool)
    → 1 ≤ times o.address p.held
    → IsPool p
    → IsPool (give_back o count p)
unfolding give_back times
give_back-IsPool o count p h v = elim (Bool-cases (ltb p.initial_capacity p.current_capacity)) [
  | inl e ↦ rw e (record {
    once = λ a. omega (arith, times-remove o.address a p.held, v.once a);
    old = λ a l. omega (arith, times-remove o.address a p.held, v.old a l);
    counted = omega (arith, length-remove o.address p.held h, v.counted);
    low = ground (arith, e);
    high = omega (arith, v.high);
    word = v.word;
  })
  | inr e ↦
      let back : CacheObject = record o {
        refcount = 0;
        bytes = clear_bytes p.object_size count o.bytes;
      } in
      rw e (record {
        once = λ a.
            ground
              (arith, times-append a p.pool (back ∷ []), times-remove o.address a p.held, v.once a);
        old = λ a l. ground (
          arith,
          times-append a p.pool (back ∷ []),
          times-remove o.address a p.held,
          v.old a l,
          v.old o.address,
        );
        counted =
            omega (
              arith,
              length-append p.pool (back ∷ []),
              length-remove o.address p.held h,
              v.counted,
            );
        low = v.low;
        high = v.high;
        word = v.word;
      })
]

free_object-IsPool :
    (o : CacheObject) (count : ℕ) (p : CachePool)
    → 1 ≤ times o.address p.held
    → IsPool p
    → IsPool (free_object o count p)
unfolding free_object
free_object-IsPool o count p h v = elim (Bool-cases (ltb 0 ((o.refcount + 2 ^ 32 - 1) % 2 ^ 32))) [
  | inl e ↦ rw e (set_refcount-IsPool o.address _ p v)
  | inr e ↦ rw e (give_back-IsPool o count p h v)
]

-- a call of a client: a new object, or one more or less reference to an object that is held
pub data Call (p : CachePool) : CachePool → Type 0 where
  allocates : (grants : ℕ) → Call p (allocate grants p).0
  gets : (o : CacheObject) → find o.address p.held ≡ some o → Call p (get_object o p)
  frees :
      (o : CacheObject) (count : ℕ)
      → find o.address p.held ≡ some o
      → Call p (free_object o count p)

pub data Calls (p : CachePool) : CachePool → Type 0 where
  none_yet : Calls p p
  then_call : {q r : CachePool} → Calls p q → Call q r → Calls p r

Call-IsPool : {p q : CachePool} → Call p q → IsPool p → IsPool q
unfolding get_object
Call-IsPool {p} (allocates grants) v = allocate-IsPool grants p v
Call-IsPool {p} (gets o h) v = set_refcount-IsPool o.address _ p v
Call-IsPool {p} (frees o count h) v =
    free_object-IsPool o count p (find-eq-some o.address p.held o h).1 v

Calls-IsPool : {p q : CachePool} → Calls p q → IsPool p → IsPool q
Calls-IsPool none_yet v = v
Calls-IsPool (then_call c d) v = Call-IsPool d (Calls-IsPool c v)

-- the pool while `cache_manager_init` fills it
record IsFilling (rounds : ℕ) (p : CachePool) : Type 0 where
  once : (a : ℕ) → times a p.pool + times a p.held ≤ 1
  old : (a : ℕ) → p.next ≤ a → times a p.pool + times a p.held ≡ 0
  counted : length p.pool + length p.held + rounds ≡ p.current_capacity
  low : p.initial_capacity ≤ p.current_capacity
  high : p.current_capacity ≤ p.max_capacity
  word : p.max_capacity < 2 ^ 63

fill-IsPool :
    (rounds grants : ℕ) (p q : CachePool)
    → IsFilling rounds p
    → fill rounds grants p ≡ some q
    → IsPool q
unfolding fill create_object times
fill-IsPool zero grants p q f e =
    let same : p ≡ q = ground (arith, e) in
    rw (← same) (record {
      once = f.once;
      old = f.old;
      counted = omega (arith, f.counted);
      low = f.low;
      high = f.high;
      word = f.word;
    })
fill-IsPool (suc rounds) zero p q f e = absurd (cc e)
fill-IsPool (suc rounds) (suc grants) p q f e =
    fill-IsPool rounds grants (create_object p) q
      (record {
        once = λ a. ground (arith, times-append a p.pool (new_object p ∷ []), f.once a, f.old a);
        old = λ a l. ground (arith, times-append a p.pool (new_object p ∷ []), f.old a);
        counted = omega (arith, length-append p.pool (new_object p ∷ []), f.counted);
        low = f.low;
        high = f.high;
        word = f.word;
      })
      e

-- However a pool is used, once it was made with an initial capacity up to the largest one, which
-- is below 2^63: every object is in the pool or held by a caller, and never in two places; the
-- current capacity is their number, and stays between the initial and the largest one. Callers
-- give back and share only objects that they hold; memory may run out in any call.
pub init-IsPool :
    (grants object_size initial_capacity max_capacity : ℕ) {p q : CachePool}
    → initial_capacity ≤ max_capacity
    → max_capacity < 2 ^ 63
    → init grants object_size initial_capacity max_capacity ≡ some p
    → Calls p q
    → IsPool q
unfolding init times
init-IsPool grants object_size initial_capacity max_capacity {p} h w e c = Calls-IsPool c (
    fill-IsPool initial_capacity grants _ p
      (record {
        once = λ a. omega arith;
        old = λ a l. omega arith;
        counted = omega arith;
        low = omega arith;
        high = h;
        word = w;
      })
      e)
