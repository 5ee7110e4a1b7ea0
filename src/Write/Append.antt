-- ===== src/Write/Append.antt =====
-- libltfs/tape.c and libltfs/ltfs.c as a write sees them: a device that can also be written, at
-- the end of what its partitions hold.
use ltfs.Prelude.{ℕ, ◌+◌, ◌<◌, ◌≤◌, ◌≡◌, Bool, List}
use ltfs.Raw.Device.{Tape, Status, good}

-- What was in front of the end of a partition stays, and stays in front of it.
pub record Keeps (tape : Tape) (append : tape.State → ℕ → ℕ) (s s' : tape.State) : Type 0 where
  pub end : (p : ℕ) → append s p ≤ append s' p
  pub same : (p b : ℕ) → b < append s p → tape.block s' (p, b) ≡ tape.block s (p, b)

-- `append` is the block that the next write to a partition makes. The laws say what a successful
-- call does; a call that fails may leave any state.
pub record Medium : Type 1 where
  pub tape : Tape
  pub append : tape.State → ℕ → ℕ
  -- `tape_device_lock`, `tape_read_only`, `ltfs_write_index_conditional` with the two
  -- `index_file_end`, `tape_seek_append_position` and `tape_write`
  pub lock : tape.State → Status × tape.State
  pub read_only : ℕ → tape.State → Status
  pub write_index : ℕ → tape.State → Bool × Bool → Status × tape.State × (Bool × Bool)
  pub seek_append : ℕ → Bool → tape.State → Status × tape.State
  pub write : List ℕ → tape.State → Status × tape.State
  pub lock_lem : (s : tape.State) → (lock s).0 ≡ good → Keeps tape append s (lock s).1
  pub write_index_lem :
      (id : ℕ) (s : tape.State) (flags : Bool × Bool)
      → (write_index id s flags).0 ≡ good
      → Keeps tape append s (write_index id s flags).1
  pub seek_append_lem :
      (p : ℕ) (unlock_write : Bool) (s : tape.State)
      → let r = seek_append p unlock_write s in
        r.0 ≡ good → Keeps tape append s r.1 × (tape.position r.1 ≡ (p, append r.1 p))
  pub write_lem :
      (bytes : List ℕ) (p : ℕ) (s : tape.State)
      → tape.position s ≡ (p, append s p)
      → let r = write bytes s in
        r.0 ≡ good
        → Keeps tape append s r.1
          × (tape.block r.1 (p, append s p) ≡ bytes)
          × (append r.1 p ≡ append s p + 1)
          × (tape.position r.1 ≡ (p, append s p + 1))
