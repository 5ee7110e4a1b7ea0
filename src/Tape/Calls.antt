-- ===== src/Tape/Calls.antt =====
-- Sequences of calls of the tape layer, whatever the results of the single calls.
use ltfs.Prelude.{ℕ, ◌≤◌, ◌≡◌, inl, inr, Bool, ◌==◌, ltb, arith, Bool-cases, List, [], ◌∷◌, Option}
use ltfs.Raw.Device.{Status, good, bad}
use ltfs.Tape.Ops.{TcPosition, Backend, place_of, Documented, tape_block_max}
use ltfs.Tape.{
  Handle, set_entry, positioned, note_space, tape_seek, seek_eod_end, tape_seek_eod,
  tape_seek_append_position, tape_write, tape_write_filemark, tape_set_key, tape_read,
  set_append_position,
}
use ltfs.Tape.Position.{IsSound, tape_seek-IsSound}
use ltfs.Tape.Seeking.{note_append-IsSound, tape_seek_append_position-IsSound}
use ltfs.Tape.Writing.{tape_write-IsSound, tape_write_filemark-IsSound}
use ltfs.Tape.Reading.{key_at-IsStill, tape_read-IsSound}

-- a call of the tape layer
pub data Call : Type 0 where
  seek : ℕ × ℕ → Call
  seek_eod : ℕ → Call
  seek_append : ℕ → Bool → Call
  set_append : ℕ → ℕ → Call
  write : List ℕ → Bool → Bool → Call
  write_filemark : ℕ → Bool → Bool → Bool → Call
  set_key : List ℕ → List ℕ → Call
  read : ℕ → Bool → Option (List ℕ → Option (List ℕ)) → Call

module _ (b : Backend) where
  -- no call sets an append position beyond the cartridge
  abbrev pub Below : List Call → Type 0
  Below [] = Unit
  Below (set_append p n ∷ calls) = (n ≤ b.limit) × Below calls
  Below (_ ∷ calls) = Below calls

  unfoldable pub call : Call → Handle b → Handle b
  call (seek pos) st = (tape_seek b pos st).1
  call (seek_eod p) st = (tape_seek_eod b p st).1
  call (seek_append p u) st = (tape_seek_append_position b p u st).1
  call (set_append p n) st = record st { dev = (set_append_position p n st.dev).1 }
  call (write buf l n) st = (tape_write b buf l n st).1
  call (write_filemark count l n i) st = (tape_write_filemark b count l n i st).1
  call (set_key a k) st = (tape_set_key b a k st).1
  call (read count u kmi) st = (tape_read b count u kmi st).2

  unfoldable pub run : List Call → Handle b → Handle b
  run [] st = st
  run (c ∷ calls) st = run calls (call c st)

module _ (b : Backend) (doc : Documented b) where
  seek_eod_end-IsSound :
      (p : ℕ) (r : Status × TcPosition × b.Drive) (st : Handle b)
      → place_of r.1 ≡ b.head r.2
      → IsSound b st
      → IsSound b (seek_eod_end b p r st).1
  unfolding seek_eod_end positioned note_space
  seek_eod_end-IsSound p (bad code, h, d) st e s = record { in_sync = e; recorded = s.recorded }
  seek_eod_end-IsSound p (good, h, d) st e s = elim (Bool-cases (p == h.partition)) [
    | inl t ↦ rw t (
        note_append-IsSound b doc p (note_space b (positioned b h d st))
          (record { in_sync = e; recorded = s.recorded }))
    | inr f ↦ rw f (record { in_sync = e; recorded = s.recorded })
  ]

  tape_seek_eod-IsSound :
      (p : ℕ) (st : Handle b) → IsSound b st → IsSound b (tape_seek_eod b p st).1
  unfolding tape_seek_eod
  tape_seek_eod-IsSound p st s = elim (Bool-cases (ltb 1 p)) [
    | inl t ↦ rw t s
    | inr f ↦ rw f (
        seek_eod_end-IsSound p (b.locate (p, tape_block_max) st.drive) st
          (doc.locate_reports _ st.drive) s)
  ]

  set_append-IsSound :
      (p n : ℕ) (st : Handle b)
      → n ≤ b.limit
      → IsSound b st
      → IsSound b (record st { dev = (set_append_position p n st.dev).1 })
  unfolding set_append_position set_entry
  set_append-IsSound p n st k s = elim (Bool-cases (ltb 1 p)) [
    | inl t ↦ rw t s
    | inr f ↦ rw f (record {
      in_sync = s.in_sync;
      recorded = λ q. let old = s.recorded q in ground (arith, old, k);
    })
  ]

  -- Over a documented drive, whatever calls are made, none of which sets an append position beyond the cartridge, and however
  -- they end: the recorded position stays that of the head, and the append positions stay within the
  -- cartridge.
  pub run-IsSound :
      (calls : List Call) (st : Handle b)
      → Below b calls
      → IsSound b st
      → IsSound b (run b calls st)
  unfolding run call tape_set_key
  run-IsSound [] st k s = s
  run-IsSound (seek pos ∷ calls) st k s = run-IsSound calls _ k (tape_seek-IsSound b doc pos st s)
  run-IsSound (seek_eod p ∷ calls) st k s = run-IsSound calls _ k (tape_seek_eod-IsSound p st s)
  run-IsSound (seek_append p u ∷ calls) st k s =
      run-IsSound calls _ k (tape_seek_append_position-IsSound b doc p u st s)
  run-IsSound (set_append p n ∷ calls) st k s =
      run-IsSound calls _ k.1 (set_append-IsSound p n st k.0 s)
  run-IsSound (write buf l n ∷ calls) st k s =
      run-IsSound calls _ k (tape_write-IsSound b doc buf l n st s)
  run-IsSound (write_filemark count l n i ∷ calls) st k s =
      run-IsSound calls _ k (tape_write_filemark-IsSound b doc count l n i st s)
  run-IsSound (set_key a key ∷ calls) st k s =
      run-IsSound calls _ k ((key_at-IsStill b doc a key (b.readpos st.drive) st).sound s)
  run-IsSound (read count u kmi ∷ calls) st k s =
      run-IsSound calls _ k (tape_read-IsSound b doc count u kmi st s)
