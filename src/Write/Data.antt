-- ===== src/Write/Data.antt =====
-- `_ltfs_fsraw_write_data_unlocked`: what is on the tape when it has written a buffer.
use ltfs.Prelude.{
  ℕ, suc, ◌+◌, ◌-◌, ◌*◌, ◌/◌, ◌%◌, ◌≤◌, ◌<◌, ◌≡◌, ◌⊎◌, refl, ◌∙◌, ap, sym, inl, inr, Bool, false,
  not, ◌&&◌, ◌||◌, Option, none, some, List, length, get_or, arith, ◌==◌, Bool-cases,
}
use ltfs.Label.{Label}
use ltfs.Raw.{Volume}
use ltfs.Raw.Device.{Status, good, bad}
use ltfs.Write.Append.{Medium, Keeps}
use ltfs.Write.{
  no_space, need_reval, is_unexpected_move, and_then, Store, Outcome, ok, failed, with_device,
  release, conclude, write_all, write_from, sought, to_end, indexed, index_other, check_writable,
  locked, write_data_unlocked, part_num,
}
use ltfs.Write.Blocks.{
  Fault, lock_failed, not_writable, index_failed, seek_failed, position_failed, Keeps_refl,
  Keeps_trans, Holds, Ends, write_blocks-Holds,
}

module _ (medium : Medium) (label : Label) (positive : 0 < label.blocksize) (buf : List ℕ)
    (partition : ℕ) where
  open medium use {
    tape, append, lock, read_only, write_index, seek_append, lock_lem, write_index_lem,
    seek_append_lem,
  }

  abbrev count : ℕ
  count = length buf

  abbrev num : ℕ
  num = part_num label partition

  abbrev pub byte_on : tape.State → ℕ → ℕ → ℕ
  byte_on s start i =
      get_or (tape.block s (num, start + i / label.blocksize)) (i % label.blocksize) 0

  -- The buffer stands from block `start` on, behind what `s` has on the tape and in front of the
  -- end that `s'` has.
  pub record IsWritten (s : tape.State) (start : ℕ) (s' : tape.State) : Type 0 where
    pub keeps : Keeps tape append s s'
    pub behind : append s num ≤ start
    pub room : start * label.blocksize + count ≤ append s' num * label.blocksize
    pub bytes : (i : ℕ) → i < count → byte_on s' start i ≡ get_or buf i 0

  -- the volume's record is as it was but for the device and the marks for an index at the end
  pub record Written (st : Store medium label) (start : ℕ) (st' : Store medium label) : Type 0 where
    pub on_tape : IsWritten st.volume.device start st'.volume.device
    pub volume : st'.volume ≡ record st.volume { device = st'.volume.device }

  -- what a call may come to: it has a result, or a reason for its code
  abbrev pub Returns :
      {A : Type 0} (P : A → Store medium label → Type 0) → Option (Outcome medium label A) → Type 0
  Returns P none = ⊥
  Returns P (some (ok a st)) = P a st
  Returns P (some (failed code st)) = Fault medium label positive code

  -- the state of the tape in the course of a call
  record IsBetween (st st' : Store medium label) : Type 0 where
    keeps : Keeps tape append st.volume.device st'.volume.device
    volume : st'.volume ≡ record st.volume { device = st'.volume.device }

  -- the result of a call that has something to write
  abbrev pub Wrote : Store medium label → Option (Outcome medium label (Option ℕ)) → Type 0
  Wrote st = Returns (λ start st'. (b : ℕ) × (start ≡ some b) × Written st b st')

  release-Returns :
      {A : Type 0} (P : A → Store medium label → Type 0) (code : ℕ) (st : Store medium label)
      → Fault medium label positive code
      → Returns P (some (release medium label code st))
  unfolding release
  release-Returns P code st f = elim (Bool-cases (need_reval code)) [
    | inl k ↦ rw k f
    | inr k ↦ elim (Bool-cases (is_unexpected_move code)) [
      | inl l ↦ rw (k, l) f
      | inr l ↦ rw (k, l) f
    ]
  ]

  module _ (st st' : Store medium label) (b : IsBetween st st') where
    abbrev device : tape.State
    device = st'.volume.device

    conclude-Wrote :
        (start : ℕ) (o : Option (Status × tape.State))
        → start ≡ append device num
        → Ends medium label positive buf num (Holds medium label positive buf num 0 device) o
        → Wrote st (
            conclude medium label buf count start
              (and_then medium label o (λ s. some (good, s)))
              st')
    unfolding conclude and_then with_device
    conclude-Wrote start none e h = h
    conclude-Wrote start (some (bad code, s)) e h = release-Returns _ code _ h
    conclude-Wrote start (some (good, s)) e h = (
      start,
      refl,
      record {
        on_tape = record {
          keeps = Keeps_trans medium label positive _ device s b.keeps h.keeps;
          behind = omega (arith, e, b.keeps.end num);
          room = omega (arith, h.room, e, ap (λ (t : ℕ). t * label.blocksize) e);
          bytes =
              λ i k. let z : i - 0 ≡ i = omega arith in rw e (rw z at (h.bytes i (omega arith) k));
        };
        volume =
            ap (λ (v : Volume tape (part_num label) label.blocksize). record v { device = s })
              b.volume;
      },
    )

    write_from-Wrote :
        (r : Status × (ℕ × ℕ))
        → tape.position device ≡ (num, append device num)
        → (r.0 ≡ good → r.1 ≡ tape.position device)
        → ((code : ℕ) → r.0 ≡ bad code → Fault medium label positive code)
        → Wrote st (write_from medium label buf count partition 1 r st')
    unfolding write_from write_all
    write_from-Wrote (bad code, start) p law f = release-Returns _ code st' (f code refl)
    write_from-Wrote (good, start) p law f =
        conclude-Wrote start.1 _ (ap (λ q. q.1) (law refl ∙ p)) (
          write_blocks-Holds medium label positive buf num (suc count) 0 device p (omega arith)
            (omega arith))

  -- a later state of the tape, with whatever marks
  advance :
      (st st' : Store medium label)
      → IsBetween st st'
      → (s : tape.State) → Keeps tape append st'.volume.device s
      → (st'' : Store medium label) → st''.volume ≡ record st'.volume { device = s }
      → IsBetween st st''
  advance st st' b s k st'' e = record {
    keeps = rw e (Keeps_trans medium label positive _ st'.volume.device s b.keeps k);
    volume =
        e
        ∙ ap (λ (v : Volume tape (part_num label) label.blocksize). record v { device = s })
            b.volume
        ∙ ap (λ (t : tape.State). record st.volume { device = t })
            (sym (ap (λ (v : Volume tape (part_num label) label.blocksize). v.device) e));
  }

  module _ (st st' : Store medium label) (b : IsBetween st st') where
    abbrev here : tape.State
    here = st'.volume.device

    sought-Wrote :
        (r : Status × tape.State)
        → (r.0 ≡ good → Keeps tape append here r.1 × (tape.position r.1 ≡ (num, append r.1 num)))
        → ((code : ℕ) → r.0 ≡ bad code → Fault medium label positive code)
        → Wrote st (sought medium label buf count partition 1 st' r)
    unfolding sought with_device
    sought-Wrote (bad code, s) law f = release-Returns _ code _ (f code refl)
    sought-Wrote (good, s) law f =
        write_from-Wrote st (with_device medium label s st')
          (advance st st' b s (law refl).0 (with_device medium label s st') refl)
          (tape.get_position s) (law refl).1 (tape.get_position_lem s)
          (λ code e. position_failed s e)

  module _ (st st' : Store medium label) (b : IsBetween st st') where
    to_end-Wrote : Wrote st (to_end medium label buf count partition 1 st')
    unfolding to_end
    to_end-Wrote =
        let is_ip = partition == label.partid_ip in
        let st2 : Store medium label = record st' {
          ip_index_file_end = not is_ip && st'.ip_index_file_end;
          dp_index_file_end = is_ip && st'.dp_index_file_end;
        } in
        sought-Wrote st st2
          (advance st st' b st'.volume.device (Keeps_refl medium label positive st'.volume.device)
            st2 refl)
          (seek_append num is_ip st'.volume.device) (seek_append_lem num is_ip st'.volume.device)
          (λ code e. seek_failed num is_ip st'.volume.device e)

  module _ (st st' : Store medium label) (b : IsBetween st st') where
    indexed-Wrote :
        (r : Status × tape.State × (Bool × Bool))
        → (r.0 ≡ good → Keeps tape append st'.volume.device r.1)
        → ((code : ℕ) → r.0 ≡ bad code → Fault medium label positive code)
        → Wrote st (indexed medium label buf count partition 1 st' r)
    unfolding indexed with_device
    indexed-Wrote (bad code, s, flags) law f = release-Returns _ code _ (f code refl)
    indexed-Wrote (good, s, flags) law f = to_end-Wrote st _ (advance st st' b s (law refl) _ refl)

    index_other-Wrote : Wrote st (index_other medium label buf count partition 1 st')
    unfolding index_other
    index_other-Wrote =
        indexed-Wrote _ (write_index_lem _ st'.volume.device _)
          (λ code e. index_failed _ st'.volume.device _ e)

    check_writable-Wrote :
        (r : Status)
        → ((code : ℕ) → r ≡ bad code → Fault medium label positive code)
        → Wrote st (check_writable medium label buf count partition 1 st' r)
    unfolding check_writable
    check_writable-Wrote good f = index_other-Wrote
    check_writable-Wrote (bad code) f = elim (Bool-cases (code == no_space)) [
      | inl k ↦ rw k index_other-Wrote
      | inr k ↦ rw k (release-Returns _ code st' (f code refl))
    ]

  locked-Wrote :
      (st : Store medium label) (r : Status × tape.State)
      → (r.0 ≡ good → Keeps tape append st.volume.device r.1)
      → ((code : ℕ) → r.0 ≡ bad code → Fault medium label positive code)
      → Wrote st (locked medium label buf count partition 1 st r)
  unfolding locked with_device
  locked-Wrote st (bad code, s) law f = f code refl
  locked-Wrote st (good, s) law f =
      check_writable-Wrote st (with_device medium label s st)
        (record { keeps = law refl; volume = refl }) (read_only num s)
        (λ code e. not_writable num s e)

  -- A call with a buffer that is not empty, for one of the two partitions, ends. If it succeeds,
  -- the buffer stands in whole blocks from the block on that the call tells, behind what the
  -- partition had; nothing that was on the tape has changed; and the volume is otherwise as it was.
  -- If it fails, one of the operations of the device or of the index has failed with that code.
  pub write_data-Wrote :
      (st : Store medium label)
      → 0 < count
      → (partition ≡ label.partid_dp) ⊎ (partition ≡ label.partid_ip)
      → Wrote st (write_data_unlocked medium label buf count partition 1 st)
  unfolding write_data_unlocked
  write_data-Wrote st k h =
      let known : (not (partition == label.partid_dp) && not (partition == label.partid_ip))
          ≡ false =
        grind arith in
      let some_bytes : (count == 0 || 1 == 0) ≡ false = ground arith in
      rw (known, some_bytes, write_data_unlocked)
        (locked-Wrote st (lock st.volume.device) (lock_lem st.volume.device)
          (λ code e. lock_failed st.volume.device e))
