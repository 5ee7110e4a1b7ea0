-- ===== src/Write/File.antt =====
-- `ltfs_fsraw_write`: what a file reads as after a write.
use native.Mathlib.Nat.{
  mul-le-mul_right, add-mul-div_right, add-mul-mod_self_right, div-lt_iff_lt-mul,
}
use ltfs.Prelude.{
  ℕ, ◌+◌, ◌-◌, ◌*◌, ◌/◌, ◌^◌, ◌≤◌, ◌<◌, ◌≡◌, ◌⊎◌, refl, ◌∙◌, ap, sym, inl, inr, Bool, true, false,
  ◌&&◌, Option, none, some, List, length, get_or, arith, ltb, leb, max, ◌==◌, ◌||◌, Bool-cases,
  Option-cases, if◌then◌else◌,
}
use ltfs.Label.{Label}
use ltfs.Extent.{ExtentInfo, Dentry, add_extent_unlocked}
use ltfs.Extent.Content.{Fits, content, covers, address}
use ltfs.Extent.Add.{IsFile, add_extent-content}
use ltfs.Raw.{Volume}
use ltfs.Raw.Bytes.{byte_at, byte_or_zero, file_byte}
use ltfs.Write.Append.{Medium, Keeps}
use ltfs.Write.{
  Store, Outcome, ok, failed, Attempt, done, again, refused, part_num, written_extent, saved,
  not_written, need_reval, is_unexpected_move, device_fenced, save_extent, fsraw_write,
}
use ltfs.Write.Blocks.{Fault}
use ltfs.Write.Data.{Written, Wrote, write_data-Wrote}

module _ (medium : Medium) (label : Label) where
  open medium use {tape, append}

  -- the bytes of a file on a tape
  abbrev pub bytes_of : tape.State → Dentry → ℕ → ℕ
  bytes_of s d = file_byte (part_num label) label.blocksize (tape.block s) d.extentlist

  -- A file on a tape: its extents are in order, and they lie in front of the ends of the
  -- partitions.
  pub record IsOnTape (s : tape.State) (d : Dentry) : Type 0 where
    pub file : IsFile label.blocksize d
    pub in_front :
        (x : ℕ) (a : ℕ × ℕ)
        → content label.blocksize d.extentlist x ≡ some a
        → a.1 < append s (part_num label a.0) * label.blocksize

  -- the block cache has a block that lies in front of the end of its partition
  pub record IsCached (st : Store medium label) : Type 0 where
    pub cached :
        tape.block st.volume.device
          (part_num label st.volume.last_pos.partition, st.volume.last_pos.block)
        ≡ st.volume.last_block
    pub sized : length st.volume.last_block ≡ st.volume.last_size
    pub in_front :
        st.volume.last_pos.block
        < append st.volume.device (part_num label st.volume.last_pos.partition)

  module _ (positive : 0 < label.blocksize) (s s' : tape.State)
      (keeps : Keeps tape append s s') where
    byte_at-Keeps :
        (a : ℕ × ℕ)
        → a.1 < append s (part_num label a.0) * label.blocksize
        → byte_at (part_num label) label.blocksize (tape.block s') a
          ≡ byte_at (part_num label) label.blocksize (tape.block s) a
    byte_at-Keeps a h =
        rw
          (keeps.same (part_num label a.0) (a.1 / label.blocksize)
            ((div-lt_iff_lt-mul positive).1 h))
          refl

    -- what a list of extents reads as stays
    content-Keeps :
        (es : List ExtentInfo) (x : ℕ)
        → ((a : ℕ × ℕ)
            → content label.blocksize es x ≡ some a
            → a.1 < append s (part_num label a.0) * label.blocksize)
        → file_byte (part_num label) label.blocksize (tape.block s') es x
          ≡ file_byte (part_num label) label.blocksize (tape.block s) es x
    content-Keeps es x h = elim (Option-cases (content label.blocksize es x)) [
      | inl e ↦
          ap (byte_or_zero (part_num label) label.blocksize (tape.block s')) e
          ∙ sym (ap (byte_or_zero (part_num label) label.blocksize (tape.block s)) e)
      | inr (a, e) ↦
          ap (byte_or_zero (part_num label) label.blocksize (tape.block s')) e
          ∙ byte_at-Keeps a (h a e)
          ∙ sym (ap (byte_or_zero (part_num label) label.blocksize (tape.block s)) e)
    ]

module _ (medium : Medium) (label : Label) (positive : 0 < label.blocksize)
    (small : label.blocksize ≤ 2 ^ 32)
    (capacity : (s : medium.tape.State) (p : ℕ) → medium.append s p * label.blocksize < 2 ^ 64)
    (now : ℕ) (d : Dentry) (buf : List ℕ) (some_bytes : 0 < length buf) (offset partition : ℕ)
    (known : (partition ≡ label.partid_dp) ⊎ (partition ≡ label.partid_ip)) (update_time : Bool)
    (limit : d.realsize + length buf < 2 ^ 64) (far : offset + length buf < 2 ^ 64) where
  open medium use {tape, append}

  abbrev within : ℕ → Bool
  within x = leb offset x && ltb x (offset + length buf)

  -- What a write that succeeds leaves of a file: exactly the bytes of the buffer are new.
  pub record IsChanged (st : Store medium label) (d' : Dentry) (st' : Store medium label)
      : Type 0 where
    pub on_tape : IsOnTape medium label st'.volume.device d'
    pub bytes :
        (x : ℕ)
        → bytes_of medium label st'.volume.device d' x ≡ (
            if within x
            then get_or buf (x - offset) 0
            else bytes_of medium label st.volume.device d x)
    pub size : d'.size ≡ max d.size (offset + length buf)
    pub modify_time : d'.modify_time ≡ (if update_time then now else d.modify_time)
    pub cache : IsCached medium label st → IsCached medium label st'

  module _ (st : Store medium label) (on_tape : IsOnTape medium label st.volume.device d) (b : ℕ)
      (st' : Store medium label) (w : Written medium label positive buf partition st b st') where
    abbrev s : tape.State
    s = st.volume.device

    abbrev s' : tape.State
    s' = st'.volume.device

    abbrev ext : ExtentInfo
    ext = written_extent medium label partition (length buf) offset (some b)

    ext-Fits : Fits label.blocksize ext
    unfolding written_extent
    ext-Fits = record {
      in_file = far;
      on_tape = omega (arith, w.on_tape.room, capacity s' (part_num label partition));
    }

    new_byte :
        (x : ℕ)
        → offset ≤ x
        → x < offset + length buf
        → byte_at (part_num label) label.blocksize (tape.block s') (address label.blocksize ext x)
          ≡ get_or buf (x - offset) 0
    unfolding written_extent
    new_byte x h k =
        let place : b * label.blocksize + 0 + (x - offset) ≡ x - offset + b * label.blocksize =
          omega arith in
        let block : (x - offset + b * label.blocksize) / label.blocksize
            ≡ b + (x - offset) / label.blocksize =
          omega (arith, add-mul-div_right (x - offset) b positive) in
        rw (place, block, add-mul-mod_self_right (x - offset) b label.blocksize)
          (w.on_tape.bytes (x - offset) (omega arith))

    module _ (d' : Dentry)
        (reads : (x : ℕ)
          → content label.blocksize d'.extentlist x ≡ (
              if covers ext x
              then some (address label.blocksize ext x)
              else content label.blocksize d.extentlist x)) where
      covered :
          (x : ℕ)
          → within x ≡ true
          → content label.blocksize d'.extentlist x ≡ some (address label.blocksize ext x)
      unfolding written_extent
      covered x h = ground (arith, reads x)

      uncovered :
          (x : ℕ)
          → within x ≡ false
          → content label.blocksize d'.extentlist x ≡ content label.blocksize d.extentlist x
      unfolding written_extent
      uncovered x h = ground (arith, reads x)

      new_bytes :
          (x : ℕ)
          → bytes_of medium label s' d' x
            ≡ (if within x then get_or buf (x - offset) 0 else bytes_of medium label s d x)
      new_bytes x = elim (Bool-cases (within x)) [
        | inl h ↦ rw h (
            ap (byte_or_zero (part_num label) label.blocksize (tape.block s')) (covered x h)
            ∙ new_byte x (ground arith) (ground arith))
        | inr h ↦ rw h (
            ap (byte_or_zero (part_num label) label.blocksize (tape.block s')) (uncovered x h)
            ∙ content-Keeps medium label positive s s' w.on_tape.keeps d.extentlist x
                (on_tape.in_front x))
      ]

      address-in_front :
          (x : ℕ)
          → offset ≤ x
          → x < offset + length buf
          → (address label.blocksize ext x).1
            < append s' (part_num label partition) * label.blocksize
      unfolding written_extent
      address-in_front x h k = omega (arith, w.on_tape.room)

      new-in_front :
          (x : ℕ) (a : ℕ × ℕ)
          → content label.blocksize d'.extentlist x ≡ some a
          → a.1 < append s' (part_num label a.0) * label.blocksize
      unfolding written_extent
      new-in_front x a e = elim (Bool-cases (within x)) [
        | inl h ↦
            let same : address label.blocksize ext x ≡ a = cc (covered x h, e) in
            rw (← same) (address-in_front x (ground arith) (ground arith))
        | inr h ↦
            let old = on_tape.in_front x a (sym (uncovered x h) ∙ e) in
            let grown : append s (part_num label a.0) * label.blocksize
                ≤ append s' (part_num label a.0) * label.blocksize =
              mul-le-mul_right label.blocksize (w.on_tape.keeps.end (part_num label a.0)) in
            omega arith
      ]

    new-cache : IsCached medium label st → IsCached medium label st'
    new-cache c =
        let pos : st'.volume.last_pos ≡ st.volume.last_pos =
          ap (λ (v : Volume tape (part_num label) label.blocksize). v.last_pos) w.volume in
        let block : st'.volume.last_block ≡ st.volume.last_block =
          ap (λ (v : Volume tape (part_num label) label.blocksize). v.last_block) w.volume in
        let size : st'.volume.last_size ≡ st.volume.last_size =
          ap (λ (v : Volume tape (part_num label) label.blocksize). v.last_size) w.volume in
        record {
          cached =
              rw (pos, block)
                (w.on_tape.keeps.same (part_num label st.volume.last_pos.partition)
                    st.volume.last_pos.block c.in_front
                  ∙ c.cached);
          sized = rw (block, size) c.sized;
          in_front = rw pos (
              omega (
                arith,
                c.in_front,
                w.on_tape.keeps.end (part_num label st.volume.last_pos.partition),
              ));
        }

    saved-IsChanged :
        (d' : Dentry) × (saved medium label
            (add_extent_unlocked true true label.blocksize update_time now d ext)
            st'
          ≡ done d' st')
        × IsChanged st d' st'
    unfolding saved written_extent
    saved-IsChanged =
        let (d', e, file, reads, size, dirty, modified, changed) =
          add_extent-content label.blocksize positive small ext ext-Fits update_time now d
            on_tape.file limit in
        (
          d',
          rw e refl,
          record {
            on_tape = record { file = file; in_front = new-in_front d' reads };
            bytes = new_bytes d' reads;
            size = size;
            modify_time = modified;
            cache = new-cache;
          },
        )

  -- How an attempt may end: with the file changed as it should be; or with the file as it was, and
  -- an error of the device, of the index or of the revalidation.
  abbrev pub Changed : Store medium label → Option (Attempt medium label) → Type 0
  Changed st none = ⊥
  Changed st (some (done d' st')) = IsChanged st d' st'
  Changed st (some (again code d' st')) = (d' ≡ d) × Fault medium label positive code
  Changed st (some (refused code d' st')) = (d' ≡ d) × Fault medium label positive code

  not_written-Changed :
      (st : Store medium label) (code : ℕ) (st' : Store medium label)
      → Fault medium label positive code
      → Changed st (some (not_written medium label code d st'))
  unfolding not_written
  not_written-Changed st code st' f = elim (Bool-cases (code == device_fenced || need_reval code)) [
    | inl k ↦ rw k (refl, f)
    | inr k ↦ elim (Bool-cases (is_unexpected_move code)) [
      | inl l ↦ rw (k, l) (refl, f)
      | inr l ↦ rw (k, l) (refl, f)
    ]
  ]

  save_extent-Changed :
      (st : Store medium label)
      → IsOnTape medium label st.volume.device d
      → (o : Option (Outcome medium label (Option ℕ)))
      → Wrote medium label positive buf partition st o
      → Changed st
          (save_extent medium label true true now d buf (length buf) offset partition update_time o)
  unfolding save_extent
  save_extent-Changed st t none w = w
  save_extent-Changed st t (some (failed code st')) w = not_written-Changed st code st' w
  save_extent-Changed st t (some (ok start st')) w =
      let (b, e, r) = w in let (d', same, c) = saved-IsChanged st t b st' r in rw (e, same) c

  -- For a well-formed file on the tape, its extents in front of the ends of the partitions, and a
  -- buffer that is not empty, for one of the two partitions, with a block size of 1 to 2^32 bytes
  -- and all sizes and places on tape below 2^64, an attempt whose allocations succeed ends. If it
  -- succeeds, the file reads as the buffer where it was written and as before elsewhere; it is
  -- well-formed and on the tape again; its size is the larger of the old one and the end of what
  -- was written; its modification time is set as `update_time` says; and a block cache that held
  -- a block of the tape still does. Otherwise the file is as it was, and an operation of the device
  -- or the writing of an index has failed with the code.
  pub fsraw_write-file :
      (st : Store medium label)
      → IsOnTape medium label st.volume.device d
      → Changed st (
          fsraw_write medium label true true now d buf (length buf) offset partition update_time st)
  unfolding fsraw_write
  fsraw_write-file st t =
      save_extent-Changed st t _
        (write_data-Wrote medium label positive buf partition st some_bytes known)
