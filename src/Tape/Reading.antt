-- ===== src/Tape/Reading.antt =====
-- Reading a block, with the key of an encrypted one.
use ltfs.Prelude.{
  ℕ, ◌+◌, ◌≡◌, ◌≢◌, inl, inr, refl, ap, sym, ◌∙◌, Bool, true, ◌==◌, arith, Bool-cases, List, Option,
  none, some,
}
use ltfs.Raw.Device.{Status, good, bad, Status-cases}
use ltfs.Tape.Ops.{TcPosition, Backend, SameTape, Documented}
use ltfs.Tape.{
  Handle, positioned, forced, key_at, tape_set_key, read_once, lacks_key, read_again, with_key,
  retried, tape_read,
}
use ltfs.Tape.Position.{Untouched, same_appends, IsSound, SameTape_refl}

module _ (b : Backend) (doc : Documented b) where
  -- a read has given the block at the head, and gone behind it
  pub record Got (st : Handle b) (r : Status × List ℕ × Handle b) : Type 0 where
    pub bytes : r.1 ≡ b.block st.drive (b.head st.drive)
    pub at : b.head r.2.drive ≡ ((b.head st.drive).0, (b.head st.drive).1 + 1)
    pub untouched : Untouched b st r.2

  -- a step that leaves the tape and the append positions
  pub record IsStill (st st' : Handle b) : Type 0 where
    head : b.head st'.drive ≡ b.head st.drive
    tape : SameTape b st.drive st'.drive
    append_pos : (p : ℕ) → st'.dev.append_pos p ≡ st.dev.append_pos p
    pub sound : IsSound b st → IsSound b st'
    pub write_error : st'.dev.write_error ≡ st.dev.write_error

  forced-IsStill :
      (r : Status × b.Drive) (h : TcPosition) (st : Handle b)
      → b.head r.1 ≡ b.head st.drive
      → SameTape b st.drive r.1
      → IsStill st (forced b r h st).1
  unfolding forced
  forced-IsStill (bad code, d) h st e t = record {
    head = e;
    tape = t;
    append_pos = λ p. refl;
    sound = λ s. record { in_sync = s.in_sync ∙ sym e; recorded = s.recorded };
    write_error = refl;
  }
  forced-IsStill (good, d) h st e t = elim (Bool-cases (h.block == 0)) [
    | inl y ↦ simp y (record {
      head = e;
      tape = t;
      append_pos = λ p. refl;
      sound = λ s. record { in_sync = s.in_sync ∙ sym e; recorded = s.recorded };
      write_error = refl;
    })
    | inr n ↦ simp n (record {
      head = e;
      tape = t;
      append_pos = λ p. refl;
      sound = λ s. record { in_sync = s.in_sync ∙ sym e; recorded = s.recorded };
      write_error = refl;
    })
  ]

  pub key_at-IsStill :
      (keyalias key : List ℕ) (r : Status × TcPosition) (st : Handle b)
      → IsStill st (key_at b keyalias key r st).1
  unfolding key_at
  key_at-IsStill a k (bad code, h) st = record {
    head = refl;
    tape = SameTape_refl b st.drive;
    append_pos = λ p. refl;
    sound = λ s. s;
    write_error = refl;
  }
  key_at-IsStill a k (good, h) st =
      let keeps = doc.key_keeps a k st.drive in
      forced-IsStill (b.set_key a k st.drive) h st keeps.0 keeps.1

  read_once-IsSound :
      (count : ℕ) (u : Bool) (st : Handle b) → IsSound b st → IsSound b (read_once b count u st).2
  unfolding read_once positioned
  read_once-IsSound count u st s = record {
    in_sync = doc.read_reports count u st.drive;
    recorded = s.recorded;
  }

  module _ (count : ℕ) (u : Bool) where
    read_once-Got :
        (st : Handle b) → (read_once b count u st).0 ≡ good → Got st (read_once b count u st)
    unfolding read_once positioned
    read_once-Got st g =
        let law = doc.read_lem count u st.drive g in
        record { bytes = law.0; at = law.1; untouched = same_appends b st _ law.2 (λ p. refl) }

    read_once-write_error :
        (st : Handle b) → (read_once b count u st).2.dev.write_error ≡ st.dev.write_error
    unfolding read_once positioned
    read_once-write_error st = refl

    read_once-IsStill :
        (st : Handle b)
        → lacks_key (read_once b count u st).0 ≡ true
        → IsStill st (read_once b count u st).2
    unfolding read_once positioned lacks_key
    read_once-IsStill st g = elim (Status-cases (b.read count u st.drive).0) [
      | inl e ↦ absurd (ground (arith, (rw e at g)))
      | inr (code, e) ↦
          let law = doc.read_refused count u st.drive code e (ground (arith, (rw e at g))) in
          record {
            head = law.0;
            tape = law.1;
            append_pos = λ p. refl;
            sound =
                λ s. record { in_sync = doc.read_reports count u st.drive; recorded = s.recorded };
            write_error = refl;
          }
    ]

    both-IsStill : (st st2 st3 : Handle b) → IsStill st st2 → IsStill st2 st3 → IsStill st st3
    both-IsStill st st2 st3 s t = record {
      head = t.head ∙ s.head;
      tape = record {
        blocks = λ q. t.tape.blocks q ∙ s.tape.blocks q;
        ends = λ p. t.tape.ends p ∙ s.tape.ends p;
      };
      append_pos = λ p. t.append_pos p ∙ s.append_pos p;
      sound = λ x. t.sound (s.sound x);
      write_error = t.write_error ∙ s.write_error;
    }

    still-Got :
        (st st2 : Handle b) (r : Status × List ℕ × Handle b) → IsStill st st2 → Got st2 r → Got st r
    still-Got st st2 r s g = record {
      bytes = g.bytes ∙ s.tape.blocks (b.head st2.drive) ∙ ap (b.block st.drive) s.head;
      at = g.at ∙ rw s.head refl;
      untouched = record {
        tape = record {
          blocks = λ q. g.untouched.tape.blocks q ∙ s.tape.blocks q;
          ends = λ p. g.untouched.tape.ends p ∙ s.tape.ends p;
        };
        appends = λ p. g.untouched.appends p ∙ rw (s.append_pos p, s.tape.ends p) refl;
      };
    }

    -- the parts of a read whose first try lacks a key
    module _ (st : Handle b) (first : Status × List ℕ × Handle b) (lacks : lacks_key first.0 ≡ true)
        (still : IsStill st first.2) where
      failed : first.0 ≢ good
      unfolding lacks_key
      failed e = absurd (ground (arith, (rw e at lacks)))

      read_again-Got :
          (r : Status × Handle b)
          → IsStill first.2 r.1
          → (read_again b count u first r).0 ≡ good
          → Got st (read_again b count u first r)
      unfolding read_again
      read_again-Got (bad code, st3) s g = absurd (failed g)
      read_again-Got (good, st3) s g =
          still-Got st st3 _ (both-IsStill st first.2 st3 still s) (read_once-Got st3 g)

      read_again-IsSound :
          (r : Status × Handle b)
          → IsStill first.2 r.1
          → IsSound b st
          → IsSound b (read_again b count u first r).2
      unfolding read_again
      read_again-IsSound (bad code, st3) s i = s.sound (still.sound i)
      read_again-IsSound (good, st3) s i = read_once-IsSound count u st3 (s.sound (still.sound i))

      read_again-write_error :
          (r : Status × Handle b)
          → IsStill first.2 r.1
          → (read_again b count u first r).2.dev.write_error ≡ st.dev.write_error
      unfolding read_again read_once positioned
      read_again-write_error (bad code, st3) s = s.write_error ∙ still.write_error
      read_again-write_error (good, st3) s = s.write_error ∙ still.write_error

      with_key-Got :
          (keyalias : List ℕ) (key : Option (List ℕ))
          → ((with_key b count u first keyalias key).0 ≡ good
              → Got st (with_key b count u first keyalias key))
            × (IsSound b st → IsSound b (with_key b count u first keyalias key).2)
            × ((with_key b count u first keyalias key).2.dev.write_error ≡ st.dev.write_error)
      unfolding with_key tape_set_key
      with_key-Got a none = (λ g. absurd (failed g), still.sound, still.write_error)
      with_key-Got a (some k) =
          let s = key_at-IsStill a k (b.readpos first.2.drive) first.2 in
          (read_again-Got _ s, read_again-IsSound _ s, read_again-write_error _ s)

      retried-Got :
          (kmi : List ℕ → Option (List ℕ)) (r : Status × List ℕ)
          → ((retried b count u kmi first r).0 ≡ good → Got st (retried b count u kmi first r))
            × (IsSound b st → IsSound b (retried b count u kmi first r).2)
            × ((retried b count u kmi first r).2.dev.write_error ≡ st.dev.write_error)
      unfolding retried
      retried-Got kmi (bad code, a) = (λ g. absurd (failed g), still.sound, still.write_error)
      retried-Got kmi (good, a) = with_key-Got a (kmi a)

    read_all :
        (kmi : Option (List ℕ → Option (List ℕ))) (st : Handle b)
        → ((tape_read b count u kmi st).0 ≡ good → Got st (tape_read b count u kmi st))
          × (IsSound b st → IsSound b (tape_read b count u kmi st).2)
          × ((tape_read b count u kmi st).2.dev.write_error ≡ st.dev.write_error)
    unfolding tape_read
    read_all none st = (read_once-Got st, read_once-IsSound count u st, read_once-write_error st)
    read_all (some kmi) st = elim (Bool-cases (lacks_key (read_once b count u st).0)) [
      | inl t ↦ rw t (retried-Got st (read_once b count u st) t (read_once-IsStill st t) kmi _)
      | inr f ↦ rw f (read_once-Got st, read_once-IsSound count u st, read_once-write_error st)
    ]

    -- a read that succeeds, at the first try or at the second
    pub tape_read-Got :
        (kmi : Option (List ℕ → Option (List ℕ))) (st : Handle b)
        → (tape_read b count u kmi st).0 ≡ good
        → Got st (tape_read b count u kmi st)
    tape_read-Got kmi st = (read_all kmi st).0

    pub tape_read-IsSound :
        (kmi : Option (List ℕ → Option (List ℕ))) (st : Handle b)
        → IsSound b st
        → IsSound b (tape_read b count u kmi st).2
    tape_read-IsSound kmi st = (read_all kmi st).1

    pub tape_read-write_error :
        (kmi : Option (List ℕ → Option (List ℕ))) (st : Handle b)
        → (tape_read b count u kmi st).2.dev.write_error ≡ st.dev.write_error
    tape_read-write_error kmi st = (read_all kmi st).2
