-- ===== src/Tape/Writing.antt =====
-- Writing a block, or filemarks, at the head.
use ltfs.Prelude.{
  ℕ, ◌+◌, ◌<◌, ◌≡◌, ◌≢◌, inl, inr, refl, ap, sym, ◌∙◌, Bool, ltb, ◌==◌, if◌then◌else◌, arith,
  Bool-cases, List, length,
}
use ltfs.Raw.Device.{Status, good, bad, Status-cases}
use ltfs.Write.{need_reval}
use ltfs.Tape.Ops.{TcPosition, Backend, place_of, Overwrites, Documented}
use ltfs.Tape.{
  Handle, set_entry, positioned, note_append, refusal, note_written, note_error, note_warning,
  block_written, tape_write, filemark_written, tape_write_filemark, write_admitted,
  filemark_admitted,
}
use ltfs.Tape.Position.{append, IsSound}
use ltfs.Tape.Seeking.{note_append-IsSound, set_entry_same}

module _ (b : Backend) (doc : Documented b) where
  -- Blocks have been written from the head on, which stood at the append position: up to there, and
  -- in the other partitions, all is as it was, and the head and the append position are behind them.
  pub record Appended (p count : ℕ) (st st' : Handle b) : Type 0 where
    pub below : (n : ℕ) → n < append b st p → b.block st'.drive (p, n) ≡ b.block st.drive (p, n)
    pub other : (q n : ℕ) → q ≢ p → b.block st'.drive (q, n) ≡ b.block st.drive (q, n)
    pub other_append : (q : ℕ) → q ≢ p → append b st' q ≡ append b st q
    pub append_moved : append b st' p ≡ append b st p + count
    pub at : b.head st'.drive ≡ (p, append b st p + count)

  set_entry_other : {A : Type 0} (p q : ℕ) (x : A) (f : ℕ → A) → q ≢ p → set_entry p x f q ≡ f q
  unfolding set_entry
  set_entry_other p q x f n = elim (Bool-cases (q == p)) [
    | inl t ↦ absurd (ground (arith, t, n))
    | inr e ↦ rw e refl
  ]

  -- a step of the device that does not move the tape, behind a write
  positioned-IsSound :
      (h : TcPosition) (d : b.Drive) (st : Handle b)
      → place_of h ≡ b.head d
      → IsSound b st
      → IsSound b (positioned b h d st)
  unfolding positioned
  positioned-IsSound h d st e s = record { in_sync = e; recorded = s.recorded }

  note_written-IsSound : (st : Handle b) → IsSound b st → IsSound b (note_written b st)
  unfolding note_written
  note_written-IsSound st s =
      note_append-IsSound b doc st.dev.position.partition _
        (record { in_sync = s.in_sync; recorded = s.recorded })

  note_error-IsSound : (code : ℕ) (st : Handle b) → IsSound b st → IsSound b (note_error b code st)
  unfolding note_error
  note_error-IsSound code st s = elim (Bool-cases (need_reval code)) [
    | inl t ↦ rw t s
    | inr f ↦ rw f (record { in_sync = s.in_sync; recorded = s.recorded })
  ]

  note_warning-IsSound : (st : Handle b) → IsSound b st → IsSound b (note_warning b st)
  unfolding note_warning
  note_warning-IsSound st s = elim (Bool-cases st.dev.position.early_warning) [
    | inl t ↦ rw t (record {
      in_sync = s.in_sync ∙ sym (doc.attribute_keeps st.drive).0;
      recorded = s.recorded;
    })
    | inr f ↦ simp f s
  ]

  block_written-IsSound :
      (l n : Bool) (r : Status × TcPosition × b.Drive) (st : Handle b)
      → place_of r.1 ≡ b.head r.2
      → IsSound b st
      → IsSound b (block_written b l n r st).1
  unfolding block_written
  block_written-IsSound l n (bad code, h, d) st e s =
      note_error-IsSound code _ (positioned-IsSound h d st e s)
  block_written-IsSound l n (good, h, d) st e s =
      note_written-IsSound _ (note_warning-IsSound _ (positioned-IsSound h d st e s))

  filemark_written-IsSound :
      (l n : Bool) (r : Status × TcPosition × b.Drive) (st : Handle b)
      → place_of r.1 ≡ b.head r.2
      → IsSound b st
      → IsSound b (filemark_written b l n r st).1
  unfolding filemark_written
  filemark_written-IsSound l n (bad code, h, d) st e s =
      note_error-IsSound code _ (positioned-IsSound h d st e s)
  filemark_written-IsSound l n (good, h, d) st e s =
      note_written-IsSound _ (positioned-IsSound h d st e s)

  pub tape_write-IsSound :
      (buf : List ℕ) (l n : Bool) (st : Handle b)
      → IsSound b st
      → IsSound b (tape_write b buf l n st).1
  unfolding tape_write write_admitted
  tape_write-IsSound buf l n st s = elim (Status-cases (refusal l n st.dev)) [
    | inr (code, e) ↦ rw e s
    | inl e ↦ rw e (elim (Bool-cases (ltb st.dev.max_block_size (length buf))) [
      | inl t ↦ rw t s
      | inr f ↦
          rw f
            (block_written-IsSound l n (b.write buf st.drive) st (doc.write_reports buf st.drive) s)
    ])
  ]

  pub tape_write_filemark-IsSound :
      (count : ℕ) (l n i : Bool) (st : Handle b)
      → IsSound b st
      → IsSound b (tape_write_filemark b count l n i st).1
  unfolding tape_write_filemark filemark_admitted
  tape_write_filemark-IsSound count l n i st s = elim (Status-cases (refusal l n st.dev)) [
    | inr (code, e) ↦ rw e s
    | inl e ↦ rw e (
        filemark_written-IsSound l n (b.writefm count i st.drive) st
          (doc.writefm_reports count i st.drive) s)
  ]

  either_way : (x end n : ℕ) → x ≡ n → end ≡ n → (if x == 0 then end else x) ≡ n
  either_way x end n e f = rw (e, f) (ground arith)

  -- the record of what a drive has written behind the append position
  pub note_written-Appended :
      (p count : ℕ) (st st2 : Handle b)
      → b.head st.drive ≡ (p, append b st p)
      → st2.dev.append_pos ≡ st.dev.append_pos
      → place_of st2.dev.position ≡ (p, append b st p + count)
      → b.head st2.drive ≡ (p, append b st p + count)
      → Overwrites b st.drive st2.drive p (append b st p) (append b st p + count)
      → Appended p count st (note_written b st2)
  unfolding note_written note_append
  note_written-Appended p count st st2 h a e at o =
      let part : st2.dev.position.partition ≡ p = ap (λ q. q.0) e in
      let block : st2.dev.position.block ≡ append b st p + count = ap (λ q. q.1) e in
      record {
        below = o.below;
        other = o.other;
        other_append = λ q n.
            rw
              (
                set_entry_other st2.dev.position.partition q st2.dev.position.block
                    st2.dev.append_pos (λ k. n (k ∙ part)),
                a,
                o.other_end q n,
              )
              refl;
        append_moved =
            either_way ((note_written b st2).dev.append_pos p) _ _
              ((rw part (set_entry_same b doc p st2.dev.position.block st2.dev.append_pos)) ∙ block)
              o.end;
        at = at;
      }
