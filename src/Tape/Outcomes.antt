-- ===== src/Tape/Outcomes.antt =====
-- How writes at the append position may end.
use ltfs.Prelude.{
  ℕ, ◌+◌, ◌≤◌, ◌⊎◌, ◌≡◌, inl, inr, refl, ap, sym, subst, ◌∙◌, Bool, true, ltb, arith, Bool-cases,
  List, length, ltb→lt,
}
use ltfs.Raw.Device.{Status, good, bad}
use ltfs.Write.{need_reval}
use ltfs.Tape.Ops.{TcPosition, Backend, place_of, SameTape, Overwrites, Documented}
use ltfs.Tape.{
  Handle, DeviceData, space_written, set_entry, positioned, large_blocksize, status_written,
  note_written, note_error, note_warning, block_written, tape_write, write_admitted, note_append,
}
use ltfs.Tape.Position.{append, SameTape_refl}
use ltfs.Tape.Admission.{IsFree, Refusal, blocked, too_large, Told, written-Told, refusal-cases}
use ltfs.Tape.Seeking.{IsQuiet, set_entry_same}
use ltfs.Tape.Writing.{Appended, note_written-Appended}

module _ (b : Backend) (doc : Documented b) where
  -- -EDEV_POR_OR_BUS_RESET and -EDEV_MEDIUM_MAY_BE_CHANGED: the drive was reset, or has another cartridge
  abbrev pub IsReset : ℕ → Type 0
  IsReset code = (code ≡ 20603) ⊎ (code ≡ 20601)

  -- a block of this size may be written
  abbrev pub IsAllowed : Bool → Bool → DeviceData → ℕ → Type 0
  IsAllowed l n dev size = IsFree l n dev × (size ≤ dev.max_block_size)

  -- How a write of a block may end: refused before the drive is called; failed with the code of the
  -- drive, with the write error set unless the drive was reset; or stored at the
  -- append position, with a status for the space that is left.
  pub data WriteResult (buf : List ℕ) (l n : Bool) (p : ℕ) (st : Handle b) (r : Status × Handle b)
      : Type 0 where
    refused :
        (code : ℕ)
        → Refusal l n st.dev (length buf) code
        → r ≡ (bad code, st)
        → WriteResult buf l n p st r
    broken :
        (code : ℕ)
        → IsAllowed l n st.dev (length buf)
        → (b.write buf st.drive).0 ≡ bad code
        → r.0 ≡ bad code
        → (IsReset code ⊎ (r.1.dev.write_error ≡ true))
        → WriteResult buf l n p st r
    stored :
        IsAllowed l n st.dev (length buf)
        → Appended b doc p 1 st r.1
        → b.block r.1.drive (p, append b st p) ≡ buf
        → Told l n (st.dev.partition_space p) r.1.dev.position r.0 (r.1.dev.partition_space p)
        → WriteResult buf l n p st r

  same_tape-Overwrites :
      (d d2 d3 : b.Drive) (p from to : ℕ)
      → Overwrites b d d2 p from to
      → SameTape b d2 d3
      → Overwrites b d d3 p from to
  same_tape-Overwrites d d2 d3 p from to o s = record {
    below = λ n k. s.blocks (p, n) ∙ o.below n k;
    other = λ q n k. s.blocks (q, n) ∙ o.other q n k;
    other_end = λ q k. s.ends q ∙ o.other_end q k;
    end = s.ends p ∙ o.end;
  }

  note_warning-IsQuiet : (st : Handle b) → IsQuiet b doc st (note_warning b st)
  unfolding note_warning
  note_warning-IsQuiet st = elim (Bool-cases st.dev.position.early_warning) [
    | inl t ↦ simp t (record {
      dev = refl;
      head = (doc.attribute_keeps st.drive).0;
      tape = (doc.attribute_keeps st.drive).1;
    })
    | inr f ↦ simp f (record { dev = refl; head = refl; tape = SameTape_refl b st.drive })
  ]

  note_error-write_error :
      (code : ℕ) (st : Handle b) → IsReset code ⊎ ((note_error b code st).dev.write_error ≡ true)
  unfolding note_error need_reval
  note_error-write_error code st = elim (Bool-cases (need_reval code)) [
    | inl t ↦ inl (ground (arith, t))
    | inr f ↦ inr (rw f refl)
  ]

  -- what the drive's write has done, at a head that is known
  write_law :
      (buf : List ℕ) (d : b.Drive) (p x : ℕ) (r : Status × TcPosition × b.Drive)
      → r ≡ b.write buf d
      → b.head d ≡ (p, x)
      → r.0 ≡ good
      → (b.head r.2 ≡ (p, x + 1))
        × (b.block r.2 (p, x) ≡ buf)
        × Overwrites b d r.2 p x (x + 1)
        × (place_of r.1 ≡ b.head r.2)
  write_law buf d p x r e a = rw e (λ g.
      let law = doc.write_lem buf d g in
      let law2 = (rw a at law) in (law2.0, law2.1, law2.2, doc.write_reports buf d))

  -- the status and the space behind a stored block
  here-Told :
      (l n : Bool) (p : ℕ) (dev : DeviceData)
      → dev.position.partition ≡ p
      → Told l n (dev.partition_space p) dev.position (status_written l n dev.position) (
          set_entry dev.position.partition
            (space_written dev.position (dev.partition_space dev.position.partition))
            dev.partition_space
            p)
  here-Told l n p dev e =
      subst
        (λ (q : ℕ).
          Told l n (dev.partition_space q) dev.position (status_written l n dev.position) (
            set_entry dev.position.partition
              (space_written dev.position (dev.partition_space dev.position.partition))
              dev.partition_space q))
        e
        (rw
          (set_entry_same b doc dev.position.partition
            (space_written dev.position (dev.partition_space dev.position.partition))
            dev.partition_space)
          (written-Told l n (dev.partition_space dev.position.partition) dev.position))

  note_written-Told :
      (l n : Bool) (p : ℕ) (st st2 : Handle b)
      → IsQuiet b doc st st2
      → st.dev.position.partition ≡ p
      → Told l n
          (st.dev.partition_space p)
          (note_written b st2).dev.position
          (status_written l n st.dev.position)
          ((note_written b st2).dev.partition_space p)
  unfolding note_written note_append
  note_written-Told l n p st st2 q e =
      subst
        (λ (dev : DeviceData).
          Told l n (st.dev.partition_space p) dev.position (status_written l n st.dev.position) (
            set_entry dev.position.partition
              (space_written dev.position (dev.partition_space dev.position.partition))
              dev.partition_space p))
        (sym q.dev) (here-Told l n p st.dev e)

  block_written-WriteResult :
      (buf : List ℕ) (l n : Bool) (p : ℕ) (st : Handle b) (r : Status × TcPosition × b.Drive)
      → r ≡ b.write buf st.drive
      → b.head st.drive ≡ (p, append b st p)
      → IsAllowed l n st.dev (length buf)
      → WriteResult buf l n p st (block_written b l n r st)
  unfolding block_written note_written note_append positioned
  block_written-WriteResult buf l n p st (bad code, h, d) e a ok =
      broken code ok (sym (ap (λ x. x.0) e)) refl (note_error-write_error code _)
  block_written-WriteResult buf l n p st (good, h, d) e a ok =
      let law = write_law buf st.drive p (append b st p) (good, h, d) e a refl in
      let st2 = note_warning b (positioned b h d st) in
      let q = note_warning-IsQuiet (positioned b h d st) in
      stored ok
        (note_written-Appended b doc p 1 st st2 a (ap (λ x. x.append_pos) q.dev)
          (ap (λ x. place_of x.position) q.dev ∙ law.3 ∙ law.0) (q.head ∙ law.0)
          (same_tape-Overwrites st.drive d st2.drive p _ _ law.2 q.tape))
        (q.tape.blocks (p, append b st p) ∙ law.1)
        (note_written-Told l n p (positioned b h d st) st2 q (ap (λ x. x.0) (law.3 ∙ law.0)))

  -- Over a documented drive, a write whose head stands at the append position of the partition ends in
  -- one of three ways. It is refused and nothing changes: with the code for a write protection, an earlier
  -- write error, no space or little space that is not to be ignored, in this order, or, if none of these
  -- is in the way, for a block above the greatest size. None of these being in the way, the drive fails,
  -- and its code is returned and, unless it says that the drive was reset or the cartridge may have changed,
  -- the write error set; or the block is stored
  -- there, with all in front of it and the other partitions unchanged, the head and the append position
  -- behind it, and with the status and the recorded space that belong to the early warnings: an error for
  -- a warning that is not to be ignored.
  pub tape_write-WriteResult :
      (buf : List ℕ) (l n : Bool) (p : ℕ) (st : Handle b)
      → b.head st.drive ≡ (p, append b st p)
      → WriteResult buf l n p st (tape_write b buf l n st)
  unfolding tape_write write_admitted
  tape_write-WriteResult buf l n p st a = elim (refusal-cases l n st.dev) [
    | inr (code, e, k) ↦ rw e (refused code (blocked k) refl)
    | inl (e, k) ↦ rw e (elim (Bool-cases (ltb st.dev.max_block_size (length buf))) [
      | inl t ↦ rw t (refused large_blocksize (too_large k (ltb→lt _ _ t) refl) refl)
      | inr f ↦ rw f (
          block_written-WriteResult buf l n p st (b.write buf st.drive) refl a
            (k, (ground (arith, f))))
    ])
  ]

  -- a write that succeeds has stored its block
  pub tape_write_good :
      (buf : List ℕ) (l n : Bool) (p : ℕ) (st : Handle b)
      → b.head st.drive ≡ (p, append b st p)
      → (tape_write b buf l n st).0 ≡ good
      → Appended b doc p 1 st (tape_write b buf l n st).1
        × (b.block (tape_write b buf l n st).1.drive (p, append b st p) ≡ buf)
  tape_write_good buf l n p st a g = elim (tape_write-WriteResult buf l n p st a) [
    | refused code e r ↦ absurd (ground (arith, g, ap (λ x. x.0) r))
    | broken code k w r h ↦ absurd (ground (arith, g, r))
    | stored o k m s ↦ (k, m)
  ]
