-- ===== src/Cache.antt =====
-- iosched/cache_manager.c: a pool of blocks of memory that grows on demand and shrinks when blocks
-- come back.
pub mod Counts
pub mod Invariant
pub mod Room
mod Tests
use ltfs.Prelude.{
  ℕ, zero, suc, ◌+◌, ◌-◌, ◌*◌, ◌/◌, ◌%◌, ◌^◌, Bool, true, false, not, ◌&&◌, Option, none, some,
  List, [], ◌∷◌, ◌++◌, drop, replicate, ltb, ◌==◌, if◌then◌else◌,
}

-- `struct cache_object`; `address` is the pointer to it
pub record CacheObject : Type 0 where
  pub address : ℕ
  pub refcount : ℕ
  pub bytes : List ℕ

-- `struct cache_pool`, with the objects that callers hold, and the address that the next object
-- will have
pub record CachePool : Type 0 where
  pub object_size : ℕ
  pub initial_capacity : ℕ
  pub max_capacity : ℕ
  pub current_capacity : ℕ
  pub pool : List CacheObject
  pub held : List CacheObject
  pub next : ℕ

-- TAILQ_REMOVE
unfoldable pub remove : ℕ → List CacheObject → List CacheObject
remove a [] = []
remove a (o ∷ os) = if o.address == a then os else o ∷ remove a os

unfoldable pub find : ℕ → List CacheObject → Option CacheObject
find a [] = none
find a (o ∷ os) = if o.address == a then some o else find a os

-- `_cache_manager_create_object` when its allocations succeed
abbrev pub new_object : CachePool → CacheObject
new_object p = record { address = p.next; refcount = 1; bytes = replicate p.object_size 0 }

unfoldable pub create_object : CachePool → CachePool
create_object p = record p { pool = p.pool ++ new_object p ∷ []; next = p.next + 1 }

-- The loop of `cache_manager_init`; `grants` is the number of objects that there is memory for.
-- None is NULL, after the pool was destroyed.
unfoldable pub fill : ℕ → ℕ → CachePool → Option CachePool
fill zero grants p = some p
fill (suc rounds) zero p = none
fill (suc rounds) (suc grants) p = fill rounds grants (create_object p)

unfoldable pub init : ℕ → ℕ → ℕ → ℕ → Option CachePool
init grants object_size initial_capacity max_capacity = fill initial_capacity grants (record {
  object_size = object_size;
  initial_capacity = initial_capacity;
  max_capacity = max_capacity;
  current_capacity = initial_capacity;
  pool = [];
  held = [];
  next = 1;
})

unfoldable pub is_empty : List CacheObject → Bool
is_empty [] = true
is_empty (o ∷ os) = false

-- `cache_manager_has_room`
unfoldable pub has_room : CachePool → Bool
unfolding is_empty
has_room p = not (is_empty p.pool && p.current_capacity == p.max_capacity)

-- an object leaves the pool for a caller
unfoldable pub hand_out : CacheObject → CachePool → CachePool
hand_out o p = record p { pool = remove o.address p.pool; held = o ∷ p.held }

-- `new_size`
unfoldable pub new_size : CachePool → ℕ
new_size p =
    if ltb (p.current_capacity * 2 % 2 ^ 64) p.max_capacity
    then (if p.current_capacity == 0 then p.max_capacity / 2 else p.current_capacity * 2 % 2 ^ 64)
    else p.max_capacity

-- the loop that grows the pool: the pool, and `last_object`
unfoldable pub grow : ℕ → ℕ → CachePool → Option ℕ → CachePool × Option ℕ
grow zero grants p last = (p, last)
grow (suc rounds) zero p last = (p, last)
grow (suc rounds) (suc grants) p last =
    grow rounds grants (record (create_object p) { current_capacity = p.current_capacity + 1 })
      (some p.next)

-- "Remove last_object from the pool and return it"
unfoldable pub hand_out_last : CachePool × Option ℕ → CachePool × Option ℕ
hand_out_last (p, none) = (p, none)
hand_out_last (p, some a) = elim (find a p.pool) [
  | none ↦ (p, none)
  | some o ↦ (hand_out o p, some a)
]

-- what follows if the pool has no object
unfoldable pub allocate_new : ℕ → CachePool → CachePool × Option ℕ
allocate_new grants p =
    if p.current_capacity == p.max_capacity
    then (p, none)
    else hand_out_last (grow (new_size p - p.current_capacity) grants p none)

unfoldable pub allocate_from : List CacheObject → ℕ → CachePool → CachePool × Option ℕ
allocate_from (o ∷ rest) grants p = (hand_out (record o { refcount = 1 }) p, some o.address)
allocate_from [] grants p = allocate_new grants p

-- `cache_manager_allocate_object`: the address of the object, or none for NULL
unfoldable pub allocate : ℕ → CachePool → CachePool × Option ℕ
allocate grants p = allocate_from p.pool grants p

-- a new count of references for an object that is held
unfoldable pub set_refcount : ℕ → ℕ → List CacheObject → List CacheObject
set_refcount a n [] = []
set_refcount a n (o ∷ os) =
    if o.address == a then record o { refcount = n } ∷ os else o ∷ set_refcount a n os

-- `cache_manager_get_object` on an object that is held
unfoldable pub get_object : CacheObject → CachePool → CachePool
get_object o p = record p { held = set_refcount o.address ((o.refcount + 1) % 2 ^ 32) p.held }

-- `memset` of `count` bytes, of all if `count` is 0
unfoldable pub clear_bytes : ℕ → ℕ → List ℕ → List ℕ
clear_bytes object_size count bytes =
    let n = if count == 0 then object_size else count in replicate n 0 ++ drop n bytes

-- an object without references leaves its caller
unfoldable pub give_back : CacheObject → ℕ → CachePool → CachePool
give_back o count p =
    if ltb p.initial_capacity p.current_capacity
    then record p { held = remove o.address p.held; current_capacity = p.current_capacity - 1 }
    else record p {
      held = remove o.address p.held;
      pool =
          p.pool ++ record o { refcount = 0; bytes = clear_bytes p.object_size count o.bytes } ∷ [];
    }

-- `cache_manager_free_object` on an object that is held
unfoldable pub free_object : CacheObject → ℕ → CachePool → CachePool
free_object o count p =
    let refcount = (o.refcount + 2 ^ 32 - 1) % 2 ^ 32 in
    if ltb 0 refcount
    then record p { held = set_refcount o.address refcount p.held }
    else give_back o count p
