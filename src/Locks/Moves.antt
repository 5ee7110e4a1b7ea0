-- ===== src/Locks/Moves.antt =====
-- What the threads say of the lock, as sums over them, and that a move of one thread keeps it.
use ltfs.Prelude.{
  ℕ, ◌+◌, ◌%◌, ◌^◌, ◌≤◌, ◌<◌, ◌≡◌, ◌≢◌, Bool, true, false, ◌==◌, if◌then◌else◌, arith,
}
use ltfs.Locks.{
  Mrsw, Pc, tried, backing, claiming_tried, gated, claiming, marking, writing, unclaiming,
  unmarking, opening, leaving, passing_marked, passing, counting, counted_in, first_reader, joined,
  leaving_down, holds_read, unreading, uncounting, last_reader, uncounted, Move,
}

-- a writer, with its flag set and not
abbrev pub flagged : Pc → ℕ
flagged (marking long) = 1
flagged writing = 1
flagged (unclaiming down) = 1
flagged _ = 0

abbrev pub unflagged : Pc → ℕ
unflagged claiming_tried = 1
unflagged (claiming long) = 1
unflagged (unmarking down) = 1
unflagged (opening down) = 1
unflagged _ = 0

abbrev pub bit : Bool → ℕ
bit b = if b then 1 else 0

-- any other thread that holds `write_exclusive_mutex`
abbrev pub at_gate : Pc → ℕ
at_gate tried = 1
at_gate backing = 1
at_gate (gated long) = 1
at_gate leaving = 1
at_gate passing_marked = 1
at_gate passing = 1
at_gate (counting down) = bit down
at_gate (counted_in down) = bit down
at_gate (first_reader down) = bit down
at_gate (joined down) = bit down
at_gate leaving_down = 1
at_gate _ = 0

-- the first reader, counted, before it has locked `reading_mutex`
abbrev pub owed : Pc → ℕ
owed (first_reader down) = 1
owed _ = 0

-- the last reader, not counted any more, before it has unlocked `reading_mutex`
abbrev pub extra : Pc → ℕ
extra last_reader = 1
extra _ = 0

-- any other thread that holds `read_count_mutex`
abbrev pub inside : Pc → ℕ
inside (counted_in down) = 1
inside (joined down) = 1
inside uncounting = 1
inside uncounted = 1
inside _ = 0

-- any other reader that is counted
abbrev pub counted : Pc → ℕ
counted (joined down) = 1
counted leaving_down = 1
counted holds_read = 1
counted unreading = 1
counted uncounting = 1
counted _ = 0

pub record Sums : Type 0 where
  pub flagged_sum : ℕ
  pub unflagged_sum : ℕ
  pub gate_sum : ℕ
  pub owed_sum : ℕ
  pub extra_sum : ℕ
  pub inside_sum : ℕ
  pub counted_sum : ℕ

abbrev pub one_if : ℕ → ℕ
one_if n = if n == 0 then 0 else 1

pub record Inv (n : ℕ) (m : Mrsw) (t : Sums) : Type 0 where
  pub gate : bit m.write_exclusive ≡ t.flagged_sum + t.unflagged_sum + t.gate_sum
  pub flag : bit m.writer ≡ t.flagged_sum
  pub lock : bit m.count ≡ t.owed_sum + t.extra_sum + t.inside_sum
  pub held :
      bit m.reading + t.owed_sum
      ≡ t.flagged_sum + t.unflagged_sum + t.extra_sum + one_if m.read_count
  pub readers : m.read_count ≡ t.owed_sum + t.counted_sum
  pub alone : 0 < t.owed_sum → t.counted_sum ≡ 0
  pub none_left : 0 < t.extra_sum → m.read_count ≡ 0
  pub few : m.read_count ≤ n

-- A thread goes from `p` to `p'`, and the sums from `t` to `t'`.
pub record Mover (n : ℕ) (t t' : Sums) (p p' : Pc) : Type 0 where
  pub flagged_eq : t'.flagged_sum + flagged p ≡ t.flagged_sum + flagged p'
  pub unflagged_eq : t'.unflagged_sum + unflagged p ≡ t.unflagged_sum + unflagged p'
  pub gate_eq : t'.gate_sum + at_gate p ≡ t.gate_sum + at_gate p'
  pub owed_eq : t'.owed_sum + owed p ≡ t.owed_sum + owed p'
  pub extra_eq : t'.extra_sum + extra p ≡ t.extra_sum + extra p'
  pub inside_eq : t'.inside_sum + inside p ≡ t.inside_sum + inside p'
  pub counted_eq : t'.counted_sum + counted p ≡ t.counted_sum + counted p'
  pub flagged_le : flagged p ≤ t.flagged_sum
  pub unflagged_le : unflagged p ≤ t.unflagged_sum
  pub gate_le : at_gate p ≤ t.gate_sum
  pub owed_le : owed p ≤ t.owed_sum
  pub extra_le : extra p ≤ t.extra_sum
  pub inside_le : inside p ≤ t.inside_sum
  pub counted_le : counted p ≤ t.counted_sum
  pub few_counted : t'.owed_sum + t'.counted_sum ≤ n

-- The condition of a move, for the clause below that stands for all of them.
abbrev Guard : {m m' : Mrsw} {p p' : Pc} → Move m p m' p' → Type 0
Guard {m} (Move.try_gate_busy h) = m.write_exclusive ≡ true
Guard {m} (Move.try_gate h) = m.write_exclusive ≡ false
Guard {m} (Move.try_reading_busy h) = m.reading ≡ true
Guard {m} (Move.try_reading h) = m.reading ≡ false
Guard {m} (Move.lock_gate h) = m.write_exclusive ≡ false
Guard {m} (Move.lock_reading h) = m.reading ≡ false
Guard {m} (Move.pass_gate h) = m.write_exclusive ≡ false
Guard {m} (Move.short_gate h) = m.write_exclusive ≡ false
Guard {m} (Move.lock_count h) = m.count ≡ false
Guard {m} (Move.count_first h) = (m.read_count + 1) % 2 ^ 32 ≡ 1
Guard {m} (Move.count_more h) = (m.read_count + 1) % 2 ^ 32 ≢ 1
Guard {m} (Move.lock_first h) = m.reading ≡ false
Guard {m} (Move.lock_uncount h) = m.count ≡ false
Guard {m} (Move.uncount_none h) = m.read_count ≡ 0
Guard {m} (Move.uncount_last h) = m.read_count ≡ 1
Guard {m} (Move.uncount_more h) = 1 < m.read_count
Guard {m} (Move.writer_as_writer h) = m.writer ≡ true
Guard {m} (Move.writer_as_reader h) = m.writer ≡ false
Guard {m} (Move.reader_as_writer h) = m.writer ≡ true
Guard {m} (Move.reader_as_reader h) = m.writer ≡ false
Guard _ = Unit

guard : {m m' : Mrsw} {p p' : Pc} (mv : Move m p m' p') → Guard mv
guard (Move.try_gate_busy h) = h
guard (Move.try_gate h) = h
guard (Move.try_reading_busy h) = h
guard (Move.try_reading h) = h
guard (Move.lock_gate h) = h
guard (Move.lock_reading h) = h
guard (Move.pass_gate h) = h
guard (Move.short_gate h) = h
guard (Move.lock_count h) = h
guard (Move.count_first h) = h
guard (Move.count_more h) = h
guard (Move.lock_first h) = h
guard (Move.lock_uncount h) = h
guard (Move.uncount_none h) = h
guard (Move.uncount_last h) = h
guard (Move.uncount_more h) = h
guard (Move.writer_as_writer h) = h
guard (Move.writer_as_reader h) = h
guard (Move.reader_as_writer h) = h
guard (Move.reader_as_reader h) = h
guard _ = tt

module _ {n : ℕ} {m : Mrsw} {t t' : Sums} (inv : Inv n m t) (small : n < 2 ^ 32) where
  pub Move-Inv : {p p' : Pc} {m' : Mrsw} → Move m p m' p' → Mover n t t' p p' → Inv n m' t'
  Move-Inv Move.back f = ground arith
  Move-Inv mv f = ground (arith, guard mv)
