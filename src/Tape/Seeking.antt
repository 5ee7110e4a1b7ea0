-- ===== src/Tape/Seeking.antt =====
-- Seeking the place of the next append, and the end of the data.
use ltfs.Prelude.{
  ℕ, ◌≤◌, ◌≡◌, ◌≢◌, inl, inr, refl, ap, sym, ◌∙◌, Bool, true, false, not, ◌&&◌, ◌==◌, arith,
  Bool-cases,
}
use ltfs.Raw.Device.{Status, good, bad}
use ltfs.Tape.Ops.{Backend, tape_block_max, place_of, SameTape, Documented}
use ltfs.Tape.{
  Handle, set_entry, note_append, append_target, allow, record_append, append_sought,
  tape_seek_append_position,
}
use ltfs.Tape.Position.{
  InSync, append, Untouched, IsSound, Sought, SameTape_refl, tape_seek-IsSound, tape_seek-Sought,
}

module _ (b : Backend) (doc : Documented b) where
  -- The head is where the next append to the partition goes, as it was before, and that place is
  -- recorded.
  pub record AtEnd (prt : ℕ) (st st' : Handle b) : Type 0 where
    pub untouched : Untouched b st st'
    pub at : b.head st'.drive ≡ (prt, append b st prt)
    pub recorded : st'.dev.append_pos prt ≡ append b st prt

  -- a step that does not move the tape, and changes nothing of the device
  pub record IsQuiet (st st' : Handle b) : Type 0 where
    pub dev : st'.dev ≡ st.dev
    pub head : b.head st'.drive ≡ b.head st.drive
    pub tape : SameTape b st.drive st'.drive

  pub allow-IsQuiet :
      (unlock_write : Bool) (target : ℕ) (st : Handle b)
      → IsQuiet st (allow b unlock_write target st).1
  unfolding allow
  allow-IsQuiet u t st =
      elim (Bool-cases (u && (st.dev.append_only_mode && not (t == tape_block_max)))) [
        | inl y ↦ rw y (
            let keeps = doc.allow_keeps st.dev.position st.drive in
            record { dev = refl; head = keeps.0; tape = keeps.1 })
        | inr n ↦ rw n (record { dev = refl; head = refl; tape = SameTape_refl b st.drive })
      ]

  pub note_append-IsSound :
      (prt : ℕ) (st : Handle b)
      → IsSound b st
      → IsSound b (note_append b prt st.dev.position.block st)
  unfolding note_append set_entry
  note_append-IsSound prt st s = record {
    in_sync = s.in_sync;
    recorded = λ p.
        let old = s.recorded p in
        let new : st.dev.position.block ≤ b.limit =
          let e : st.dev.position.block ≡ (b.head st.drive).1 = ap (λ q. q.1) s.in_sync in
          omega (arith, e, doc.head_bound st.drive) in
        ground (arith, old, new);
  }

  record_append-IsSound :
      (prt : ℕ) (r : Status × Handle b) → IsSound b r.1 → IsSound b (record_append b prt r).1
  unfolding record_append
  record_append-IsSound prt (status, st) s = elim (Bool-cases (st.dev.append_pos prt == 0)) [
    | inl t ↦ rw t (note_append-IsSound prt st s)
    | inr f ↦ rw f s
  ]

  IsQuiet-IsSound : (st st' : Handle b) → IsQuiet st st' → IsSound b st → IsSound b st'
  IsQuiet-IsSound st st' q s = record {
    in_sync = ap (λ d. place_of d.position) q.dev ∙ s.in_sync ∙ sym q.head;
    recorded = λ p. rw q.dev (s.recorded p);
  }

  append_sought-IsSound :
      (prt : ℕ) (unlock_write : Bool) (target : ℕ) (r : Status × Handle b)
      → IsSound b r.1
      → IsSound b (append_sought b prt unlock_write target r).1
  unfolding append_sought
  append_sought-IsSound prt u target (bad code, st) s = s
  append_sought-IsSound prt u target (good, st) s =
      record_append-IsSound prt (allow b u target st)
        (IsQuiet-IsSound st (allow b u target st).1 (allow-IsQuiet u target st) s)

  pub tape_seek_append_position-IsSound :
      (prt : ℕ) (unlock_write : Bool) (st : Handle b)
      → IsSound b st
      → IsSound b (tape_seek_append_position b prt unlock_write st).1
  unfolding tape_seek_append_position
  tape_seek_append_position-IsSound prt u st s =
      append_sought-IsSound prt u _ _ (tape_seek-IsSound b doc _ st s)

  append_recorded :
      (prt : ℕ) (st : Handle b) (p : ℕ) (n : ℕ)
      → n ≡ append b st prt
      → st.dev.append_pos prt ≡ 0
      → append b (note_append b prt n st) p ≡ append b st p
  unfolding note_append set_entry
  append_recorded prt st p n e z = elim (Bool-cases (p == prt)) [
    | inr f ↦ rw f refl
    | inl t ↦
        let same : p ≡ prt = ground (arith, t) in
        let end : n ≡ b.end_of_data st.drive prt = (rw z at e) in
        rw (t, same, z) (ground (arith, end))
  ]

  pub set_entry_same : {A : Type 0} (p : ℕ) (x : A) (f : ℕ → A) → set_entry p x f p ≡ x
  unfolding set_entry
  set_entry_same p x f = let t : (p == p) ≡ true = ground arith in rw t refl

  -- the step that records the append position, when the head is there
  record_append-AtEnd :
      (prt : ℕ) (st st2 : Handle b) (status : Status)
      → InSync b st2
      → Untouched b st st2
      → b.head st2.drive ≡ (prt, append b st prt)
      → AtEnd prt st (record_append b prt (status, st2)).1
  unfolding record_append note_append
  record_append-AtEnd prt st st2 status i un h =
      let block : st2.dev.position.block ≡ append b st2 prt =
        ap (λ q. q.1) (i ∙ h) ∙ sym (un.appends prt) in
      elim (Bool-cases (st2.dev.append_pos prt == 0)) [
        | inl t ↦
            let zero_pos : st2.dev.append_pos prt ≡ 0 = ground (arith, t) in
            rw t (record {
              untouched = record {
                tape = un.tape;
                appends = λ p.
                    append_recorded prt st2 p st2.dev.position.block block zero_pos ∙ un.appends p;
              };
              at = h;
              recorded =
                  set_entry_same prt st2.dev.position.block st2.dev.append_pos
                  ∙ block
                  ∙ un.appends prt;
            })
        | inr f ↦ rw f (record { untouched = un; at = h; recorded = (rw f at (un.appends prt)) })
      ]

  target_below :
      (prt : ℕ) (st : Handle b)
      → IsSound b st
      → (st.dev.append_pos prt == 0) ≡ false
      → append_target (st.dev.append_pos prt) ≢ tape_block_max
  unfolding append_target
  target_below prt st s f = rw f (λ e. omega (arith, s.recorded prt, e, doc.limit_bound))

  -- where a successful seek for an append has come to
  Sought-append :
      (prt : ℕ) (st st2 : Handle b)
      → IsSound b st
      → Sought b (prt, append_target (st.dev.append_pos prt)) st st2
      → b.head st2.drive ≡ (prt, append b st prt)
  unfolding append_target
  Sought-append prt st st2 s k = elim (Bool-cases (st.dev.append_pos prt == 0)) [
    | inl t ↦ k.at_end (rw t refl) ∙ rw t refl
    | inr f ↦ k.at (target_below prt st s f) ∙ rw f refl
  ]

  quiet-Untouched :
      (st st2 st3 : Handle b) → Untouched b st st2 → IsQuiet st2 st3 → Untouched b st st3
  quiet-Untouched st st2 st3 un q = record {
    tape = record {
      blocks = λ x. q.tape.blocks x ∙ un.tape.blocks x;
      ends = λ p. q.tape.ends p ∙ un.tape.ends p;
    };
    appends = λ p. rw (q.dev, q.tape.ends p) (un.appends p);
  }

  append_sought-AtEnd :
      (prt : ℕ) (unlock_write : Bool) (target : ℕ) (st : Handle b) (r : Status × Handle b)
      → IsSound b r.1
      → (r.0 ≡ good → Untouched b st r.1 × (b.head r.1.drive ≡ (prt, append b st prt)))
      → (append_sought b prt unlock_write target r).0 ≡ good
      → AtEnd prt st (append_sought b prt unlock_write target r).1
  unfolding append_sought
  append_sought-AtEnd prt u target st (bad code, st2) s k g = absurd (ground arith)
  append_sought-AtEnd prt u target st (good, st2) s k g =
      let a = allow b u target st2 in
      let q = allow-IsQuiet u target st2 in
      let un = (k refl).0 in
      record_append-AtEnd prt st a.1 a.0 (IsQuiet-IsSound st2 a.1 q s).in_sync
        (quiet-Untouched st st2 a.1 un q) (q.head ∙ (k refl).1)

  -- Over a documented drive, with the recorded position that of the head and the append positions
  -- within the cartridge: seeking the append position, when it succeeds, leaves the tape and the places
  -- of the next appends as they were, the head at that of the partition, and that place recorded.
  pub tape_seek_append_position_lem :
      (prt : ℕ) (unlock_write : Bool) (st : Handle b)
      → IsSound b st
      → (tape_seek_append_position b prt unlock_write st).0 ≡ good
      → AtEnd prt st (tape_seek_append_position b prt unlock_write st).1
  unfolding tape_seek_append_position
  tape_seek_append_position_lem prt u st s =
      append_sought-AtEnd prt u _ st _ (tape_seek-IsSound b doc _ st s)
        (λ g. let k = tape_seek-Sought b doc _ st s g in (k.untouched, Sought-append prt st _ s k))
