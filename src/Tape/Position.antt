-- ===== src/Tape/Position.antt =====
-- What the calls of the tape layer do to the position, the append positions and the tape.
use ltfs.Prelude.{
  ℕ, ◌≤◌, ◌≡◌, ◌≢◌, ◌⊎◌, inl, inr, refl, ap, sym, ◌∙◌, ◌&&◌, ◌==◌, if◌then◌else◌, arith, Bool-cases,
}
use ltfs.Raw.Device.{Status, good, bad}
use ltfs.Tape.Ops.{TcPosition, Backend, tape_block_max, place_of, SameTape, Documented}
use ltfs.Tape.{Handle, positioned, check_place, note_space, relocated, tape_seek}

module _ (b : Backend) where
  -- the recorded position is the one of the head
  abbrev pub InSync : Handle b → Type 0
  InSync st = place_of st.dev.position ≡ b.head st.drive

  -- where the next append to a partition goes: a 0 stands for the end of its data
  abbrev pub append : Handle b → ℕ → ℕ
  append st p = if st.dev.append_pos p == 0 then b.end_of_data st.drive p else st.dev.append_pos p

  -- neither the tape nor an append position has changed
  pub record Untouched (st st' : Handle b) : Type 0 where
    pub tape : SameTape b st.drive st'.drive
    pub appends : (p : ℕ) → append st' p ≡ append st p

  pub same_appends :
      (st st' : Handle b)
      → SameTape b st.drive st'.drive
      → ((p : ℕ) → st'.dev.append_pos p ≡ st.dev.append_pos p)
      → Untouched st st'
  same_appends st st' t a = record { tape = t; appends = λ p. rw (a p, t.ends p) }

  relocated-InSync :
      (status : Status) (h : TcPosition) (d : b.Drive) (st : Handle b)
      → place_of h ≡ b.head d
      → InSync (relocated b (status, h, d) st).1
  unfolding relocated positioned note_space
  relocated-InSync good h d st e = e
  relocated-InSync (bad code) h d st e = e

  relocated-append_pos :
      (r : Status × TcPosition × b.Drive) (st : Handle b) (p : ℕ)
      → (relocated b r st).1.dev.append_pos p ≡ st.dev.append_pos p
  unfolding relocated positioned note_space
  relocated-append_pos (good, h, d) st p = refl
  relocated-append_pos (bad code, h, d) st p = refl

  relocated-drive :
      (r : Status × TcPosition × b.Drive) (st : Handle b)
      → ((relocated b r st).1.drive ≡ r.2) × ((relocated b r st).0 ≡ r.0)
  unfolding relocated positioned note_space
  relocated-drive (good, h, d) st = (refl, refl)
  relocated-drive (bad code, h, d) st = (refl, refl)

  pub check_place-state : (pos : ℕ × ℕ) (r : Status × Handle b) → (check_place b pos r).1 ≡ r.1
  unfolding check_place
  check_place-state pos (good, st) = refl
  check_place-state pos (bad code, st) = refl

  -- a seek that succeeds is where it should be
  check_place-good :
      (pos : ℕ × ℕ) (r : Status × Handle b)
      → (check_place b pos r).0 ≡ good
      → (r.0 ≡ good)
        × (r.1.dev.position.partition ≡ pos.0)
        × ((pos.1 ≡ tape_block_max) ⊎ (r.1.dev.position.block ≡ pos.1))
  unfolding check_place
  check_place-good pos (good, st) h = (refl, ground arith, ground arith)
  check_place-good pos (bad code, st) h = absurd (ground arith)

  -- The recorded position is the head's, and the append positions are within the cartridge.
  pub record IsSound (st : Handle b) : Type 0 where
    pub in_sync : InSync st
    pub recorded : (p : ℕ) → st.dev.append_pos p ≤ b.limit

  pub relocated-IsSound :
      (r : Status × TcPosition × b.Drive) (st : Handle b)
      → place_of r.1 ≡ b.head r.2
      → IsSound st
      → IsSound (relocated b r st).1
  relocated-IsSound r st e s = record {
    in_sync = relocated-InSync r.0 r.1 r.2 st e;
    recorded = λ p. rw (relocated-append_pos r st p) (s.recorded p);
  }

  -- what a seek to a block, or to the end of the data, has done when it succeeds
  pub record Sought (pos : ℕ × ℕ) (st st' : Handle b) : Type 0 where
    pub untouched : Untouched st st'
    pub append_pos : (p : ℕ) → st'.dev.append_pos p ≡ st.dev.append_pos p
    pub at : pos.1 ≢ tape_block_max → b.head st'.drive ≡ pos
    pub at_end : pos.1 ≡ tape_block_max → b.head st'.drive ≡ (pos.0, b.end_of_data st.drive pos.0)

  abbrev pub SameTape_refl : (d : b.Drive) → SameTape b d d
  SameTape_refl d = record { blocks = λ q. refl; ends = λ p. refl }

module _ (b : Backend) (doc : Documented b) where
  pub tape_seek-IsSound :
      (pos : ℕ × ℕ) (st : Handle b) → IsSound b st → IsSound b (tape_seek b pos st).1
  unfolding tape_seek
  tape_seek-IsSound pos st s =
      elim (Bool-cases (pos.0 == st.dev.position.partition && pos.1 == st.dev.position.block)) [
        | inl t ↦ rw (t, check_place-state b pos (good, st)) s
        | inr f ↦
            rw (f, check_place-state b pos (relocated b (b.locate pos st.drive) st))
              (relocated-IsSound b (b.locate pos st.drive) st (doc.locate_reports pos st.drive) s)
      ]

  -- a place is known by its numbers
  pub at_place :
      (st : Handle b) (pos : ℕ × ℕ)
      → InSync b st
      → st.dev.position.partition ≡ pos.0
      → st.dev.position.block ≡ pos.1
      → b.head st.drive ≡ pos
  at_place st pos s e f = sym s ∙ rw (e, f) refl

  Sought-here :
      (pos : ℕ × ℕ) (st : Handle b)
      → IsSound b st
      → st.dev.position.partition ≡ pos.0
      → st.dev.position.block ≡ pos.1
      → Sought b pos st st
  Sought-here pos st s e f =
      let at = at_place st pos s.in_sync e f in
      record {
        untouched = same_appends b st st (SameTape_refl b st.drive) (λ p. refl);
        append_pos = λ p. refl;
        at = λ n. at;
        at_end = λ m.
            let bound = doc.head_bound st.drive in
            let block : (b.head st.drive).1 ≡ pos.1 = ap (λ q. q.1) at in
            absurd (omega (arith, bound, block, m, doc.limit_bound));
      }

  Sought-check_place :
      (pos : ℕ × ℕ) (r : Status × TcPosition × b.Drive) (st : Handle b)
      → place_of r.1 ≡ b.head r.2
      → (r.0 ≡ good → SameTape b st.drive r.2)
      → (pos.1 ≡ tape_block_max → r.0 ≡ good → b.head r.2 ≡ (pos.0, b.end_of_data st.drive pos.0))
      → (check_place b pos (relocated b r st)).0 ≡ good
      → Sought b pos st (relocated b r st).1
  unfolding relocated positioned note_space
  Sought-check_place pos (bad code, h, d) st e k l g =
      absurd (ground (arith, (check_place-good b pos (bad code, positioned b h d st) g).0))
  Sought-check_place pos (good, h, d) st e k l g =
      let there = check_place-good b pos (good, note_space b (positioned b h d st)) g in
      record {
        untouched = same_appends b st (note_space b (positioned b h d st)) (k refl) (λ p. refl);
        append_pos = λ p. refl;
        at = λ n. (elim there.2 [
          | inl m ↦ absurd (n m)
          | inr f ↦ at_place (note_space b (positioned b h d st)) pos e there.1 f
        ]);
        at_end = λ m. l m refl;
      }

  pub locate_to_end :
      (pos : ℕ × ℕ) (st : Handle b)
      → pos.1 ≡ tape_block_max
      → (b.locate pos st.drive).0 ≡ good
      → b.head (b.locate pos st.drive).2 ≡ (pos.0, b.end_of_data st.drive pos.0)
  locate_to_end pos st m g =
      let e : pos ≡ (pos.0, tape_block_max) = ap (λ (n : ℕ). (pos.0, n)) m in
      ap (λ (q : ℕ × ℕ). b.head (b.locate q st.drive).2) e
      ∙ doc.locate_end pos.0 st.drive (sym (ap (λ (q : ℕ × ℕ). (b.locate q st.drive).0) e) ∙ g)

  pub tape_seek-Sought :
      (pos : ℕ × ℕ) (st : Handle b)
      → IsSound b st
      → (tape_seek b pos st).0 ≡ good
      → Sought b pos st (tape_seek b pos st).1
  unfolding tape_seek
  tape_seek-Sought pos st s =
      elim (Bool-cases (pos.0 == st.dev.position.partition && pos.1 == st.dev.position.block)) [
        | inl t ↦
            rw (t, check_place-state b pos (good, st))
              (λ g. Sought-here pos st s (ground (arith, t)) (ground (arith, t)))
        | inr f ↦
            rw (f, check_place-state b pos (relocated b (b.locate pos st.drive) st))
              (Sought-check_place pos (b.locate pos st.drive) st (doc.locate_reports pos st.drive)
                (doc.locate_keeps pos st.drive) (λ m g. locate_to_end pos st m g))
      ]
