-- ===== src/Tape/Lockout.antt =====
-- A write that has failed keeps all later writes from the tape.
use ltfs.Prelude.{
  ℕ, ◌≡◌, ◌⊎◌, inl, inr, refl, ap, ◌∙◌, Bool, true, ◌&&◌, ◌==◌, ltb, Bool-cases, List, [], ◌∷◌,
}
use ltfs.Raw.Device.{Status, good, bad}
use ltfs.Tape.Ops.{TcPosition, Backend, Documented, tape_block_max}
use ltfs.Tape.{
  Handle, DeviceData, positioned, relocated, note_space, tape_seek, seek_eod_end, tape_seek_eod,
  record_append, append_sought, note_append, allow, tape_seek_append_position, tape_write,
  tape_write_filemark, tape_set_key, set_append_position, refusal, write_admitted,
  filemark_admitted, write_error_code, write_protect_code,
}
use ltfs.Tape.Position.{check_place-state}
use ltfs.Tape.Seeking.{allow-IsQuiet}
use ltfs.Tape.Reading.{key_at-IsStill, tape_read-write_error}
use ltfs.Tape.Calls.{
  Call, seek, seek_eod, seek_append, set_append, write, write_filemark, set_key, read, call, run,
}

module _ (b : Backend) (doc : Documented b) where
  abbrev HasFailed : Handle b → Type 0
  HasFailed st = st.dev.write_error ≡ true

  -- a call has come back with one of the two codes, and has changed nothing
  abbrev pub Refused : Handle b → Status × Handle b → Type 0
  Refused st r =
      (code : ℕ) × (r ≡ (bad code, st)) × ((code ≡ write_error_code) ⊎ (code ≡ write_protect_code))

  -- a write is refused with a code, for any flags
  refusal_failed :
      (l n : Bool) (st : Handle b)
      → HasFailed st
      → (code : ℕ) × (refusal l n st.dev ≡ bad code)
        × ((code ≡ write_error_code) ⊎ (code ≡ write_protect_code))
  unfolding refusal
  refusal_failed l n st e = elim (Bool-cases st.dev.write_protect) [
    | inl t ↦ (write_protect_code, simp t refl, inr refl)
    | inr f ↦ (write_error_code, simp (f, e) refl, inl refl)
  ]

  tape_write_failed :
      (buf : List ℕ) (l n : Bool) (st : Handle b)
      → HasFailed st
      → Refused st (tape_write b buf l n st)
  unfolding tape_write write_admitted
  tape_write_failed buf l n st e = let r = refusal_failed l n st e in (r.0, rw r.1 refl, r.2)

  tape_write_filemark_failed :
      (count : ℕ) (l n i : Bool) (st : Handle b)
      → HasFailed st
      → Refused st (tape_write_filemark b count l n i st)
  unfolding tape_write_filemark filemark_admitted
  tape_write_filemark_failed count l n i st e =
      let r = refusal_failed l n st e in (r.0, rw r.1 refl, r.2)

  relocated-HasFailed :
      (r : Status × TcPosition × b.Drive) (st : Handle b)
      → HasFailed st
      → HasFailed (relocated b r st).1
  unfolding relocated note_space positioned
  relocated-HasFailed (good, h, d) st e = e
  relocated-HasFailed (bad code, h, d) st e = e

  tape_seek-HasFailed :
      (pos : ℕ × ℕ) (st : Handle b) → HasFailed st → HasFailed (tape_seek b pos st).1
  unfolding tape_seek
  tape_seek-HasFailed pos st e =
      elim (Bool-cases (pos.0 == st.dev.position.partition && pos.1 == st.dev.position.block)) [
        | inl t ↦ rw (t, check_place-state b pos (good, st)) e
        | inr f ↦
            rw (f, check_place-state b pos (relocated b (b.locate pos st.drive) st))
              (relocated-HasFailed (b.locate pos st.drive) st e)
      ]

  seek_eod_end-HasFailed :
      (p : ℕ) (r : Status × TcPosition × b.Drive) (st : Handle b)
      → HasFailed st
      → HasFailed (seek_eod_end b p r st).1
  unfolding seek_eod_end positioned note_space note_append
  seek_eod_end-HasFailed p (bad code, h, d) st e = e
  seek_eod_end-HasFailed p (good, h, d) st e = elim (Bool-cases (p == h.partition)) [
    | inl t ↦ rw t e
    | inr f ↦ rw f e
  ]

  tape_seek_eod-HasFailed :
      (p : ℕ) (st : Handle b) → HasFailed st → HasFailed (tape_seek_eod b p st).1
  unfolding tape_seek_eod
  tape_seek_eod-HasFailed p st e = elim (Bool-cases (ltb 1 p)) [
    | inl t ↦ rw t e
    | inr f ↦ rw f (seek_eod_end-HasFailed p (b.locate (p, tape_block_max) st.drive) st e)
  ]

  append_sought-HasFailed :
      (p : ℕ) (u : Bool) (target : ℕ) (r : Status × Handle b)
      → HasFailed r.1
      → HasFailed (append_sought b p u target r).1
  unfolding append_sought record_append note_append
  append_sought-HasFailed p u target (bad code, st) e = e
  append_sought-HasFailed p u target (good, st) e =
      let st2 = (allow b u target st).1 in
      let e2 : HasFailed st2 =
        ap (λ (d : DeviceData). d.write_error) (allow-IsQuiet b doc u target st).dev ∙ e in
      elim (Bool-cases (st2.dev.append_pos p == 0)) [ inl t ↦ rw t e2 | inr f ↦ rw f e2 ]

  set_append-HasFailed :
      (p n : ℕ) (st : Handle b)
      → HasFailed st
      → (set_append_position p n st.dev).1.write_error ≡ true
  unfolding set_append_position
  set_append-HasFailed p n st e = elim (Bool-cases (ltb 1 p)) [ inl t ↦ rw t e | inr f ↦ rw f e ]

  call-HasFailed : (c : Call) (st : Handle b) → HasFailed st → HasFailed (call b c st)
  unfolding call tape_set_key tape_seek_append_position
  call-HasFailed (seek pos) st e = tape_seek-HasFailed pos st e
  call-HasFailed (seek_eod p) st e = tape_seek_eod-HasFailed p st e
  call-HasFailed (seek_append p u) st e =
      append_sought-HasFailed p u _ _ (tape_seek-HasFailed _ st e)
  call-HasFailed (set_append p n) st e = set_append-HasFailed p n st e
  call-HasFailed (write buf l n) st e =
      ap (λ r. r.1.dev.write_error) (tape_write_failed buf l n st e).1 ∙ e
  call-HasFailed (write_filemark count l n i) st e =
      ap (λ r. r.1.dev.write_error) (tape_write_filemark_failed count l n i st e).1 ∙ e
  call-HasFailed (set_key a key) st e =
      (key_at-IsStill b doc a key (b.readpos st.drive) st).write_error ∙ e
  call-HasFailed (read count u kmi) st e = tape_read-write_error b doc count u kmi st ∙ e

  run-HasFailed : (calls : List Call) (st : Handle b) → HasFailed st → HasFailed (run b calls st)
  unfolding run
  run-HasFailed [] st e = e
  run-HasFailed (c ∷ calls) st e = run-HasFailed calls (call b c st) (call-HasFailed c st e)

  -- Over a documented drive, once the write error is set, no sequence of these calls lets a write through: a write of a block and
  -- one of filemarks, with any flags, are refused for the error or a write protection, and change
  -- nothing.
  pub lockout :
      (calls : List Call) (st : Handle b)
      → st.dev.write_error ≡ true
      → (buf : List ℕ) (count : ℕ) (l n i : Bool)
      → let st' = run b calls st in
        Refused st' (tape_write b buf l n st') × Refused st' (tape_write_filemark b count l n i st')
  lockout calls st e buf count l n i =
      let f = run-HasFailed calls st e in
      (
        tape_write_failed buf l n (run b calls st) f,
        tape_write_filemark_failed count l n i (run b calls st) f,
      )
