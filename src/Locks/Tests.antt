-- ===== src/Locks/Tests.antt =====
-- Two threads over one lock, the first with the lock for writing: the theorems at that state.
use ltfs.Prelude.{◌≢◌, ◌<◌, ◌≡◌, refl, true, false, arith}
use ltfs.Locks.{
  Pc, idle, writing, wants_read, holds_read, uncounting, Move, System, by_thread, Reach, start,
  later,
}
use ltfs.Locks.Totals.{with_pc}
use ltfs.Locks.Safety.{mutual_exclusion, release_lem}
use ltfs.Locks.Progress.{SomeoneGoesOn, no_deadlock}

-- thread 0 tries the lock and gets it; thread 1 waits to read
abbrev contended : System
contended = record {
  mem = record {
    write_exclusive = true;
    reading = true;
    count = false;
    read_count = 0;
    writer = true;
    long_lock = false;
  };
  pc =
      with_pc 1 wants_read
        (with_pc 0 writing (with_pc 0 Pc.claiming_tried (with_pc 0 Pc.tried (λ _. idle))));
}

contended-Reach : Reach 2 contended
contended-Reach =
    later
      (later
        (later (later start (by_thread 0 (Move.try_gate refl) (omega arith)))
          (by_thread 0 (Move.try_reading refl) (omega arith)))
        (by_thread 0 Move.claim_tried (omega arith)))
      (by_thread 1 Move.want_read (omega arith))

mutual_exclusion_example : (contended.pc 1 ≢ writing) × (contended.pc 1 ≢ holds_read)
mutual_exclusion_example =
    mutual_exclusion {s = contended} 0 1 (omega arith) contended-Reach (omega arith) (omega arith)
      (omega arith) refl

release_example :
    (contended.pc 0 ≡ writing → contended.mem.writer ≡ true)
    × (contended.pc 0 ≡ holds_read → contended.mem.writer ≡ false)
    × (contended.pc 0 ≡ uncounting → 0 < contended.mem.read_count)
release_example = release_lem {s = contended} 0 (omega arith) contended-Reach (omega arith)

no_deadlock_example : SomeoneGoesOn 2 contended
no_deadlock_example =
    no_deadlock {s = contended} 1 (omega arith) contended-Reach (omega arith) (λ e. cc)
