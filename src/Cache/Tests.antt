-- ===== src/Cache/Tests.antt =====
-- A pool of one to four objects of three bytes: tests, and the theorems at it.
use ltfs.Prelude.{ℕ, ◌≡◌, refl, true, none, some, [], ◌∷◌, arith}
use ltfs.Cache.{
  CacheObject, CachePool, remove, find, create_object, fill, init, has_room, hand_out, new_size,
  grow, hand_out_last, allocate_new, allocate_from, allocate, set_refcount, get_object, clear_bytes,
  give_back, free_object,
}
use ltfs.Cache.Invariant.{IsPool, allocates, none_yet, then_call, init-IsPool}
use ltfs.Cache.Room.{Answers, allocate-Answers}

program : Unit {0}
unfolding remove find create_object fill init hand_out new_size grow hand_out_last allocate_new
    allocate_from allocate set_refcount get_object clear_bytes give_back free_object
program = tt

abbrev object : ℕ → ℕ → CacheObject
object address refcount = record { address = address; refcount = refcount; bytes = 0 ∷ 0 ∷ 0 ∷ [] }

abbrev small_pool : CachePool
small_pool = record {
  object_size = 3;
  initial_capacity = 1;
  max_capacity = 4;
  current_capacity = 1;
  pool = object 1 1 ∷ [];
  held = [];
  next = 2;
}

made : init 9 3 1 4 ≡ some small_pool
unfolding program
made = refl

-- the second object is created and the pool doubled
twice : (allocate 9 (allocate 9 small_pool).0).1 ≡ some 2
unfolding program
twice = refl

-- a pool of at most one object that starts empty says that it has room and never has an object
abbrev single : CachePool
single = record {
  object_size = 3;
  initial_capacity = 0;
  max_capacity = 1;
  current_capacity = 0;
  pool = [];
  held = [];
  next = 1;
}

single_room : has_room single ≡ true
unfolding has_room
single_room = refl

single_denied : (allocate 9 single).1 ≡ none
unfolding program
single_denied = refl

init-IsPool_example : IsPool (allocate 9 (allocate 9 small_pool).0).0
init-IsPool_example =
    init-IsPool 9 3 1 4 (omega arith) (omega arith) made
      (then_call (then_call none_yet (allocates 9)) (allocates 9))

small_pool-IsPool : IsPool small_pool
small_pool-IsPool = init-IsPool 9 3 1 4 (omega arith) (omega arith) made none_yet

allocate-Answers_example : Answers 9 small_pool (allocate 9 small_pool)
allocate-Answers_example = allocate-Answers 9 small_pool small_pool-IsPool
