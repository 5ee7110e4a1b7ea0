-- ===== src/Locks/Invariant.antt =====
-- What holds of the lock and its threads in every state that they reach.
use ltfs.Prelude.{ℕ, ◌+◌, ◌^◌, ◌≤◌, ◌<◌, refl, arith}
use ltfs.Locks.{Pc, idle, System, Step, by_thread, Reach, start, later, init_mrsw}
use ltfs.Locks.Totals.{with_pc, total, total-with_pc, weight-le-total, total-total-le, total-none}
use ltfs.Locks.Moves.{
  flagged, unflagged, at_gate, owed, extra, inside, counted, Sums, Inv, Mover, Move-Inv,
}

abbrev pub sums : ℕ → (ℕ → Pc) → Sums
sums n pc = record {
  flagged_sum = total flagged n pc;
  unflagged_sum = total unflagged n pc;
  gate_sum = total at_gate n pc;
  owed_sum = total owed n pc;
  extra_sum = total extra n pc;
  inside_sum = total inside n pc;
  counted_sum = total counted n pc;
}

owed-counted : (p : Pc) → owed p + counted p ≤ 1
owed-counted p = ground arith

mover :
    (n : ℕ) (pc : ℕ → Pc) (i : ℕ) (p : Pc)
    → i < n
    → Mover n (sums n pc) (sums n (with_pc i p pc)) (pc i) p
mover n pc i p h = record {
  flagged_eq = total-with_pc flagged i p pc n h;
  unflagged_eq = total-with_pc unflagged i p pc n h;
  gate_eq = total-with_pc at_gate i p pc n h;
  owed_eq = total-with_pc owed i p pc n h;
  extra_eq = total-with_pc extra i p pc n h;
  inside_eq = total-with_pc inside i p pc n h;
  counted_eq = total-with_pc counted i p pc n h;
  flagged_le = weight-le-total flagged n pc i h;
  unflagged_le = weight-le-total unflagged n pc i h;
  gate_le = weight-le-total at_gate n pc i h;
  owed_le = weight-le-total owed n pc i h;
  extra_le = weight-le-total extra n pc i h;
  inside_le = weight-le-total inside n pc i h;
  counted_le = weight-le-total counted n pc i h;
  few_counted = total-total-le owed counted n (with_pc i p pc) owed-counted;
}

Inv-init : (n : ℕ) → Inv n init_mrsw (sums n (λ _. idle))
Inv-init n =
    let f = total-none flagged n idle refl in
    let u = total-none unflagged n idle refl in
    let g = total-none at_gate n idle refl in
    let o = total-none owed n idle refl in
    let x = total-none extra n idle refl in
    let s = total-none inside n idle refl in
    let c = total-none counted n idle refl in
    record {
      gate = omega (arith, f, u, g);
      flag = omega (arith, f);
      lock = omega (arith, o, x, s);
      held = omega (arith, f, u, o, x);
      readers = omega (arith, o, c);
      alone = λ h. c;
      none_left = λ h. refl;
      few = omega arith;
    }

pub Step-Inv :
    {n : ℕ} {s t : System}
    → n < 2 ^ 32
    → Step n s t
    → Inv n s.mem (sums n s.pc)
    → Inv n t.mem (sums n t.pc)
Step-Inv {n} {s} small (by_thread {lock} {next} i mv h) inv =
    Move-Inv inv small mv (mover n s.pc i next h)

pub Reach-Inv : {n : ℕ} {s : System} → n < 2 ^ 32 → Reach n s → Inv n s.mem (sums n s.pc)
Reach-Inv {n} small start = Inv-init n
Reach-Inv small (later r st) = Step-Inv small st (Reach-Inv small r)
