-- ===== src/Locks.antt =====
-- libltfs/ltfs_locking.h: the lock for many readers or one writer, `MultiReaderSingleWriter`, with
-- any number of threads that take its mutexes step by step in any order.
pub mod Totals
mod Moves
pub mod Invariant
pub mod Safety
pub mod Progress
mod Tests
use ltfs.Prelude.{ℕ, ◌+◌, ◌-◌, ◌%◌, ◌^◌, ◌<◌, ◌≡◌, ◌≢◌, Bool, true, false}
use ltfs.Locks.Totals.{with_pc}

-- The lock: whether each of its mutexes is locked, and its variables.
pub record Mrsw : Type 0 where
  pub write_exclusive : Bool
  pub reading : Bool
  pub count : Bool
  pub read_count : ℕ
  pub writer : Bool
  pub long_lock : Bool

-- `init_mrsw`
abbrev pub init_mrsw : Mrsw
init_mrsw = record {
  write_exclusive = false;
  reading = false;
  count = false;
  read_count = 0;
  writer = false;
  long_lock = false;
}

-- Where a thread stands. `long` is set in `acquirewrite_mrsw_long`, `down` in `writetoread_mrsw`; there
-- the thread counts itself as a reader while it still holds `write_exclusive_mutex`.
pub data Pc : Type 0 where
  idle : Pc  -- holds nothing
  tried : Pc  -- `try_acquirewrite_mrsw`, before the trylock of `reading_mutex`
  backing : Pc  -- before it gives `write_exclusive_mutex` back
  claiming_tried : Pc  -- before `writer=1`
  wants_write : (long : Bool) → Pc  -- start of `acquirewrite_mrsw`
  gated : (long : Bool) → Pc  -- before the lock of `reading_mutex`
  claiming : (long : Bool) → Pc  -- before `writer=1`
  marking : (long : Bool) → Pc  -- before the store to `long_lock`
  writing : Pc  -- holds the lock for writing
  unclaiming : (down : Bool) → Pc  -- start of `releasewrite_mrsw`, before `writer=0`
  unmarking : (down : Bool) → Pc  -- before `long_lock=0`
  opening : (down : Bool) → Pc  -- before the unlock of `reading_mutex`
  leaving : Pc  -- before the unlock of `write_exclusive_mutex`
  wants_read : Pc  -- start of `acquireread_mrsw`
  passing_marked : Pc  -- before `long_lock=0`
  trying_short : Pc  -- the loop of `acquireread_mrsw_short`, before the trylock
  peeking : Pc  -- the loop, before the second test of `long_lock`
  passing : Pc  -- before the unlock of `write_exclusive_mutex`
  counting : (down : Bool) → Pc  -- before the lock of `read_count_mutex`
  counted_in : (down : Bool) → Pc  -- before `read_count++`
  first_reader : (down : Bool) → Pc  -- before the lock of `reading_mutex`
  joined : (down : Bool) → Pc  -- before the unlock of `read_count_mutex`
  leaving_down : Pc  -- end of `writetoread_mrsw`
  holds_read : Pc  -- holds the lock for reading
  unreading : Pc  -- start of `releaseread_mrsw`
  uncounting : Pc  -- before the test of `read_count`
  last_reader : Pc  -- before the unlock of `reading_mutex`
  uncounted : Pc  -- before the unlock of `read_count_mutex`

-- One step of one thread: an operation on a mutex, or an access to `writer` or `long_lock`, which
-- threads read without a mutex. `read_count` is used only under its mutex, so the code between its
-- load and the branch on it is one step. A thread that waits for a mutex has no step.
pub data Move (m : Mrsw) : Pc → Mrsw → Pc → Type 0 where
  -- `try_acquirewrite_mrsw`
  try_gate_busy : m.write_exclusive ≡ true → Move m idle m idle
  try_gate : m.write_exclusive ≡ false → Move m idle (record m { write_exclusive = true }) tried
  try_reading_busy : m.reading ≡ true → Move m tried m backing
  back : Move m backing (record m { write_exclusive = false }) idle
  try_reading : m.reading ≡ false → Move m tried (record m { reading = true }) claiming_tried
  claim_tried : Move m claiming_tried (record m { writer = true }) writing
  -- `acquirewrite_mrsw`, `acquirewrite_mrsw_long`
  want_write : (long : Bool) → Move m idle m (wants_write long)
  lock_gate :
      {long : Bool}
      → m.write_exclusive ≡ false
      → Move m (wants_write long) (record m { write_exclusive = true }) (gated long)
  lock_reading :
      {long : Bool}
      → m.reading ≡ false
      → Move m (gated long) (record m { reading = true }) (claiming long)
  claim : {long : Bool} → Move m (claiming long) (record m { writer = true }) (marking long)
  mark : {long : Bool} → Move m (marking long) (record m { long_lock = long }) writing
  -- `releasewrite_mrsw`, and the start of `writetoread_mrsw`
  release_write : (down : Bool) → Move m writing m (unclaiming down)
  unclaim : {down : Bool} → Move m (unclaiming down) (record m { writer = false }) (unmarking down)
  unmark : {down : Bool} → Move m (unmarking down) (record m { long_lock = false }) (opening down)
  open_reading : Move m (opening false) (record m { reading = false }) leaving
  open_down : Move m (opening true) (record m { reading = false }) (counting true)
  leave : Move m leaving (record m { write_exclusive = false }) idle
  -- `acquireread_mrsw`
  want_read : Move m idle m wants_read
  pass_gate :
      m.write_exclusive ≡ false
      → Move m wants_read (record m { write_exclusive = true }) passing_marked
  pass_mark : Move m passing_marked (record m { long_lock = false }) passing
  -- `acquireread_mrsw_short`
  short_refused : m.long_lock ≡ true → Move m idle m idle
  want_short : m.long_lock ≡ false → Move m idle m trying_short
  short_gate :
      m.write_exclusive ≡ false → Move m trying_short (record m { write_exclusive = true }) passing
  short_gate_busy : m.write_exclusive ≡ true → Move m trying_short m peeking
  short_gives_up : m.long_lock ≡ true → Move m peeking m idle
  short_again : m.long_lock ≡ false → Move m peeking m trying_short
  -- the rest of both, and of `writetoread_mrsw`
  pass : Move m passing (record m { write_exclusive = false }) (counting false)
  lock_count :
      {down : Bool}
      → m.count ≡ false
      → Move m (counting down) (record m { count = true }) (counted_in down)
  count_first :
      {down : Bool}
      → (m.read_count + 1) % 2 ^ 32 ≡ 1
      → Move m
          (counted_in down)
          (record m { read_count = (m.read_count + 1) % 2 ^ 32 })
          (first_reader down)
  count_more :
      {down : Bool}
      → (m.read_count + 1) % 2 ^ 32 ≢ 1
      → Move m
          (counted_in down)
          (record m { read_count = (m.read_count + 1) % 2 ^ 32 })
          (joined down)
  lock_first :
      {down : Bool}
      → m.reading ≡ false
      → Move m (first_reader down) (record m { reading = true }) (joined down)
  join : Move m (joined false) (record m { count = false }) holds_read
  join_down : Move m (joined true) (record m { count = false }) leaving_down
  leave_down : Move m leaving_down (record m { write_exclusive = false }) holds_read
  -- `releaseread_mrsw`
  release_read : Move m holds_read m unreading
  lock_uncount : m.count ≡ false → Move m unreading (record m { count = true }) uncounting
  uncount_none : m.read_count ≡ 0 → Move m uncounting (record m { read_count = 0 }) uncounted
  uncount_last : m.read_count ≡ 1 → Move m uncounting (record m { read_count = 0 }) last_reader
  uncount_more :
      1 < m.read_count → Move m uncounting (record m { read_count = m.read_count - 1 }) uncounted
  open_last : Move m last_reader (record m { reading = false }) uncounted
  unlock_count : Move m uncounted (record m { count = false }) idle
  -- `release_mrsw`, which tells a writer from a reader by the flag
  writer_as_writer : m.writer ≡ true → Move m writing m (unclaiming false)
  writer_as_reader : m.writer ≡ false → Move m writing m unreading
  reader_as_writer : m.writer ≡ true → Move m holds_read m (unclaiming false)
  reader_as_reader : m.writer ≡ false → Move m holds_read m unreading

-- `n` threads over one lock. An index from `n` on names no thread and stays idle.
pub record System : Type 0 where
  pub mem : Mrsw
  pub pc : ℕ → Pc

pub data Step (n : ℕ) (s : System) : System → Type 0 where
  by_thread :
      {lock : Mrsw} {next : Pc} (i : ℕ)
      → Move s.mem (s.pc i) lock next
      → i < n
      → Step n s (record { mem = lock; pc = with_pc i next s.pc })

abbrev pub init : System
init = record { mem = init_mrsw; pc = λ _. idle }

pub data Reach (n : ℕ) : System → Type 0 where
  start : Reach n init
  later : {s t : System} → Reach n s → Step n s t → Reach n t
