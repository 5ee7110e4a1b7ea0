-- ===== src/Locks/Progress.antt =====
-- That no set of threads comes to a halt while one of them wants the lock.
use ltfs.Prelude.{ℕ, ◌^◌, ◌<◌, ◌≡◌, ◌≢◌, inl, inr, refl, true, false, arith, Bool-cases}
use native.Mathlib.Decide.{dec_lt}
use ltfs.Locks.{
  Mrsw, Pc, idle, claiming_tried, wants_write, gated, claiming, marking, writing, unclaiming,
  unmarking, opening, wants_read, trying_short, peeking, counting, counted_in, first_reader, joined,
  leaving_down, holds_read, unreading, uncounting, last_reader, uncounted, System, Reach,
}
use ltfs.Locks.Totals.{total, weight-le-total, someone}
use ltfs.Locks.Moves.{flagged, unflagged, at_gate, owed, extra, inside, counted, Inv}
use ltfs.Locks.Invariant.{sums, Reach-Inv}

-- where a thread is not kept waiting: it holds the lock, or its next step can be taken
abbrev pub GoesOn : Mrsw → Pc → Type 0
GoesOn m idle = ⊥
GoesOn m (wants_write long) = m.write_exclusive ≡ false
GoesOn m wants_read = m.write_exclusive ≡ false
GoesOn m trying_short = m.write_exclusive ≡ false
GoesOn m peeking = m.write_exclusive ≡ false
GoesOn m (gated long) = m.reading ≡ false
GoesOn m (first_reader down) = m.reading ≡ false
GoesOn m (counting down) = m.count ≡ false
GoesOn m unreading = m.count ≡ false
GoesOn m _ = Unit

flagged-GoesOn : (m : Mrsw) (p : Pc) → 0 < flagged p → GoesOn m p
flagged-GoesOn m writing h = tt
flagged-GoesOn m (marking long) h = tt
flagged-GoesOn m (unclaiming down) h = tt
flagged-GoesOn m _ h = absurd (omega arith)

unflagged-GoesOn : (m : Mrsw) (p : Pc) → 0 < unflagged p → GoesOn m p
unflagged-GoesOn m claiming_tried h = tt
unflagged-GoesOn m (claiming long) h = tt
unflagged-GoesOn m (unmarking down) h = tt
unflagged-GoesOn m (opening down) h = tt
unflagged-GoesOn m _ h = absurd (omega arith)

extra-GoesOn : (m : Mrsw) (p : Pc) → 0 < extra p → GoesOn m p
extra-GoesOn m last_reader h = tt
extra-GoesOn m _ h = absurd (omega arith)

inside-GoesOn : (m : Mrsw) (p : Pc) → 0 < inside p → GoesOn m p
inside-GoesOn m (counted_in down) h = tt
inside-GoesOn m (joined down) h = tt
inside-GoesOn m uncounting h = tt
inside-GoesOn m uncounted h = tt
inside-GoesOn m _ h = absurd (omega arith)

owed-GoesOn : (m : Mrsw) (p : Pc) → m.reading ≡ false → 0 < owed p → GoesOn m p
owed-GoesOn m (first_reader down) r h = r
owed-GoesOn m _ r h = absurd (omega arith)

counted-GoesOn : (m : Mrsw) (p : Pc) → m.count ≡ false → 0 < counted p → GoesOn m p
counted-GoesOn m (joined down) c h = tt
counted-GoesOn m leaving_down c h = tt
counted-GoesOn m holds_read c h = tt
counted-GoesOn m unreading c h = c
counted-GoesOn m uncounting c h = tt
counted-GoesOn m _ c h = absurd (omega arith)

at_gate-GoesOn :
    (m : Mrsw) (p : Pc) → m.reading ≡ false → m.count ≡ false → 0 < at_gate p → GoesOn m p
at_gate-GoesOn m (gated long) r c h = r
at_gate-GoesOn m (first_reader down) r c h = r
at_gate-GoesOn m (counting down) r c h = c
at_gate-GoesOn m idle r c h = absurd (omega arith)
at_gate-GoesOn m (wants_write long) r c h = absurd (omega arith)
at_gate-GoesOn m wants_read r c h = absurd (omega arith)
at_gate-GoesOn m trying_short r c h = absurd (omega arith)
at_gate-GoesOn m peeking r c h = absurd (omega arith)
at_gate-GoesOn m unreading r c h = absurd (omega arith)
at_gate-GoesOn m _ r c h = tt

-- With all mutexes but `reading_mutex` free, a thread that is not idle goes on.
free-GoesOn :
    (m : Mrsw) (p : Pc)
    → m.write_exclusive ≡ false
    → m.count ≡ false
    → at_gate p ≡ 0
    → owed p ≡ 0
    → p ≢ idle
    → GoesOn m p
free-GoesOn m idle w c g o h = absurd (h refl)
free-GoesOn m (wants_write long) w c g o h = w
free-GoesOn m wants_read w c g o h = w
free-GoesOn m trying_short w c g o h = w
free-GoesOn m peeking w c g o h = w
free-GoesOn m (gated long) w c g o h = absurd (omega arith)
free-GoesOn m (first_reader down) w c g o h = absurd (omega arith)
free-GoesOn m (counting down) w c g o h = c
free-GoesOn m unreading w c g o h = c
free-GoesOn m _ w c g o h = tt

-- a thread of a system that goes on
abbrev pub SomeoneGoesOn : ℕ → System → Type 0
SomeoneGoesOn n s = (j : ℕ) × (j < n) × GoesOn s.mem (s.pc j)

module _ {n : ℕ} (s : System) (inv : Inv n s.mem (sums n s.pc)) where
  by_weight :
      (weight : Pc → ℕ)
      → ((p : Pc) → 0 < weight p → GoesOn s.mem p)
      → 0 < total weight n s.pc
      → SomeoneGoesOn n s
  by_weight weight goes h = let (j, l, w) = someone weight n s.pc h in (j, l, goes (s.pc j) w)

  -- `reading_mutex` is locked by a writer, or by the group of the readers.
  reading_locked : s.mem.count ≡ false → s.mem.reading ≡ true → SomeoneGoesOn n s
  reading_locked c r = elim (dec_lt 0 (total flagged n s.pc)) [
    | yes f ↦ by_weight flagged (flagged-GoesOn s.mem) f
    | no f ↦ elim (dec_lt 0 (total unflagged n s.pc)) [
      | yes u ↦ by_weight unflagged (unflagged-GoesOn s.mem) u
      | no u ↦
          by_weight counted (λ p. counted-GoesOn s.mem p c)
            (ground (arith, c, r, f, u, inv.held, inv.lock, inv.readers))
    ]
  ]

  -- A thread that holds `read_count_mutex` goes on, or the writer does that it waits for.
  count_locked : s.mem.count ≡ true → SomeoneGoesOn n s
  count_locked c = elim (dec_lt 0 (total extra n s.pc)) [
    | yes x ↦ by_weight extra (extra-GoesOn s.mem) x
    | no x ↦ elim (dec_lt 0 (total inside n s.pc)) [
      | yes k ↦ by_weight inside (inside-GoesOn s.mem) k
      | no k ↦ elim (Bool-cases s.mem.reading) [
        | inr r ↦ by_weight owed (λ p. owed-GoesOn s.mem p r) (ground (arith, c, x, k, inv.lock))
        | inl r ↦ elim (dec_lt 0 (total flagged n s.pc)) [
          | yes f ↦ by_weight flagged (flagged-GoesOn s.mem) f
          | no f ↦
              by_weight unflagged (unflagged-GoesOn s.mem)
                (ground (arith, c, x, k, r, f, inv.lock, inv.held, inv.readers, inv.alone))
        ]
      ]
    ]
  ]

  gate_locked :
      s.mem.count ≡ false → s.mem.reading ≡ false → s.mem.write_exclusive ≡ true → SomeoneGoesOn n s
  gate_locked c r w = elim (dec_lt 0 (total at_gate n s.pc)) [
    | yes g ↦ by_weight at_gate (λ p. at_gate-GoesOn s.mem p r c) g
    | no g ↦ elim (dec_lt 0 (total flagged n s.pc)) [
      | yes f ↦ by_weight flagged (flagged-GoesOn s.mem) f
      | no f ↦ by_weight unflagged (unflagged-GoesOn s.mem) (ground (arith, w, g, f, inv.gate))
    ]
  ]

  all_free :
      (i : ℕ)
      → i < n
      → s.mem.count ≡ false
      → s.mem.write_exclusive ≡ false
      → s.pc i ≢ idle
      → SomeoneGoesOn n s
  all_free i hi c w h =
      let g = weight-le-total at_gate n s.pc i hi in
      let o = weight-le-total owed n s.pc i hi in
      (
        i,
        hi,
        free-GoesOn s.mem (s.pc i) w c (ground (arith, w, g, inv.gate))
            (ground (arith, c, o, inv.lock)) h,
      )

-- In every state that fewer than 2 ^ 32 threads reach, if a thread is not idle then some thread holds
-- the lock or can take its next step: the three mutexes never lock all threads out.
pub no_deadlock :
    {n : ℕ} {s : System} (i : ℕ)
    → n < 2 ^ 32
    → Reach n s
    → i < n
    → s.pc i ≢ idle
    → SomeoneGoesOn n s
no_deadlock {n} {s} i small r hi h =
    let inv = Reach-Inv small r in
    elim (Bool-cases s.mem.count) [
      | inl c ↦ count_locked s inv c
      | inr c ↦ elim (Bool-cases s.mem.reading) [
        | inl k ↦ reading_locked s inv c k
        | inr k ↦ elim (Bool-cases s.mem.write_exclusive) [
          | inl w ↦ gate_locked s inv c k w
          | inr w ↦ all_free s inv i hi c w h
        ]
      ]
    ]
