-- ===== src/Locks/Safety.antt =====
-- That the lock keeps writers from all other threads, and that each thread releases it its own way.
use ltfs.Prelude.{ℕ, ◌^◌, ◌<◌, ◌≡◌, ◌≢◌, true, false, arith}
use ltfs.Locks.{writing, holds_read, uncounting, System, Reach}
use ltfs.Locks.Totals.{weight-le-total, two-le-total}
use ltfs.Locks.Moves.{flagged, counted, Inv}
use ltfs.Locks.Invariant.{sums, Reach-Inv}

module _ {n : ℕ} {s : System} (small : n < 2 ^ 32) (r : Reach n s) where
  inv : Inv n s.mem (sums n s.pc)
  inv = Reach-Inv small r

  one_writer : (i j : ℕ) → i < n → j < n → s.pc i ≡ writing → s.pc j ≡ writing → ¬ (i < j)
  one_writer i j hi hj e f l =
      let two = two-le-total flagged n s.pc i j l hj in ground (arith, inv.gate, two, e, f)

  writer_alone : (i j : ℕ) → i < n → j < n → s.pc i ≡ writing → s.pc j ≡ holds_read → ⊥
  writer_alone i j hi hj e f =
      let a = weight-le-total flagged n s.pc i hi in
      let b = weight-le-total counted n s.pc j hj in
      ground (arith, inv.held, inv.readers, inv.alone, a, b, e, f)

  flag-writing : (i : ℕ) → i < n → s.pc i ≡ writing → s.mem.writer ≡ true
  flag-writing i hi e =
      let a = weight-le-total flagged n s.pc i hi in ground (arith, inv.flag, a, e)

  flag-holds_read : (i : ℕ) → i < n → s.pc i ≡ holds_read → s.mem.writer ≡ false
  flag-holds_read i hi e =
      let a = weight-le-total counted n s.pc i hi in
      ground (arith, inv.flag, inv.held, inv.readers, inv.alone, a, e)

  read_count-uncounting : (i : ℕ) → i < n → s.pc i ≡ uncounting → 0 < s.mem.read_count
  read_count-uncounting i hi e =
      let a = weight-le-total counted n s.pc i hi in ground (arith, inv.readers, a, e)

-- In every state that fewer than 2 ^ 32 threads reach, whatever the order of their steps, no thread
-- holds the lock, for writing or for reading, beside another one that holds it for writing.
pub mutual_exclusion :
    {n : ℕ} {s : System} (i j : ℕ)
    → n < 2 ^ 32
    → Reach n s
    → i < n
    → j < n
    → i ≢ j
    → s.pc i ≡ writing
    → (s.pc j ≢ writing) × (s.pc j ≢ holds_read)
mutual_exclusion i j small r hi hj k e = (
  λ f.
      let a = one_writer small r i j hi hj e f in
      let b = one_writer small r j i hj hi f e in absurd (ground (arith, a, b, k)),
  λ f. writer_alone small r i j hi hj e f,
)

-- In every state that fewer than 2 ^ 32 threads reach, the flag that `release_mrsw` reads is set where
-- a thread holds the lock for writing and clear where one holds it for reading, so that each takes
-- its own way out; and a reader that takes itself from the count finds it above 0.
pub release_lem :
    {n : ℕ} {s : System} (i : ℕ)
    → n < 2 ^ 32
    → Reach n s
    → i < n
    → (s.pc i ≡ writing → s.mem.writer ≡ true)
      × (s.pc i ≡ holds_read → s.mem.writer ≡ false)
      × (s.pc i ≡ uncounting → 0 < s.mem.read_count)
release_lem i small r hi =
    (flag-writing small r i hi, flag-holds_read small r i hi, read_count-uncounting small r i hi)
