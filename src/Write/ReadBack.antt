-- ===== src/Write/ReadBack.antt =====
-- `ltfs_fsraw_read` after `ltfs_fsraw_write`.
use ltfs.Prelude.{
  ℕ, suc, ◌+◌, ◌-◌, ◌*◌, ◌^◌, ◌≤◌, ◌<◌, ◌≡◌, ◌⊎◌, refl, ◌∙◌, ap, Bool, true, Option, none, some,
  List, [], ◌∷◌, length, get_or, arith, min, ltb, leb, ◌&&◌, if◌then◌else◌,
}
use ltfs.Label.{Label}
use ltfs.Extent.{Dentry}
use ltfs.Raw.{Volume, Result, Reading, fsraw_read}
use ltfs.Raw.{ok as read_ok, failed as read_failed, out_of_fuel}
use ltfs.Raw.Block.{Sound}
use ltfs.Raw.Read.{IsRead}
use ltfs.Raw.Inside.{fsraw_read-inside}
use ltfs.Raw.Window.{window}
use ltfs.Write.Append.{Medium}
use ltfs.Write.{Store, Attempt, done, again, refused, part_num, fsraw_write}
use ltfs.Write.Blocks.{Fault}
use ltfs.Write.File.{bytes_of, IsOnTape, IsCached, IsChanged, Changed, fsraw_write-file}

window-list :
    (xs : List ℕ) (f : ℕ → ℕ) (x : ℕ)
    → ((y i : ℕ) → y ≡ x + i → i < length xs → f y ≡ get_or xs i 0)
    → window f x (length xs) ≡ xs
window-list [] f x h = refl
window-list (a ∷ xs) f x h =
    rw (h x 0 (omega arith) (omega arith))
      (ap (◌∷◌ a) (window-list xs f (suc x) (λ y i e k. h y (suc i) (omega arith) (omega arith))))

module _ (medium : Medium) (label : Label) (positive : 0 < label.blocksize)
    (small : label.blocksize ≤ 2 ^ 32)
    (capacity : (s : medium.tape.State) (p : ℕ) → medium.append s p * label.blocksize < 2 ^ 64)
    (now later : ℕ) (d : Dentry) (buf : List ℕ) (some_bytes : 0 < length buf) (offset partition : ℕ)
    (known : (partition ≡ label.partid_dp) ⊎ (partition ≡ label.partid_ip)) (update_time : Bool)
    (limit : d.realsize + length buf < 2 ^ 64) (far : offset + length buf < 2 ^ 63)
    (word : d.size < 2 ^ 63) where
  open medium use {tape}

  abbrev IsBack :
      (s : tape.State)
      → Reading tape (part_num label) label.blocksize
      → Volume tape (part_num label) label.blocksize
      → Type 0
  IsBack s r vol = (r.buf ≡ buf) × (r.read_count ≡ length buf)

  -- How a write and a read of the same range may end: with the buffer; with an error of the read,
  -- and its fault; or with an error of the write.
  abbrev pub ReadsBack : Option (Attempt medium label) → Type 0
  ReadsBack none = ⊥
  ReadsBack (some (done d' st')) =
      Sound tape (part_num label) label.blocksize (tape.block st'.volume.device)
        (IsBack st'.volume.device)
        (fsraw_read tape (part_num label) label.blocksize true later d' (length buf) offset
          st'.volume)
  ReadsBack (some (again code d' st')) = Fault medium label positive code
  ReadsBack (some (refused code d' st')) = Fault medium label positive code

  Sound-map :
      {A : Type 0} (image : ℕ × ℕ → List ℕ)
      (P Q : A → Volume tape (part_num label) label.blocksize → Type 0)
      (r : Result tape (part_num label) label.blocksize A)
      → ((a : A) (v : Volume tape (part_num label) label.blocksize) → P a v → Q a v)
      → Sound tape (part_num label) label.blocksize image P r
      → Sound tape (part_num label) label.blocksize image Q r
  Sound-map image P Q (read_ok a v) f p = f a v p
  Sound-map image P Q (read_failed code v) f p = p
  Sound-map image P Q out_of_fuel f p = p

  module _ (st : Store medium label) (cache : IsCached medium label st) where
    written_byte :
        (y i : ℕ)
        → y ≡ offset + i
        → i < length buf
        → (if leb offset y && ltb y (offset + length buf)
            then get_or buf (y - offset) 0
            else bytes_of medium label st.volume.device d y)
          ≡ get_or buf i 0
    written_byte y i e k =
        let there : (leb offset y && ltb y (offset + length buf)) ≡ true = ground arith in
        let at : y - offset ≡ i = omega arith in rw (there, at)

    done-ReadsBack :
        (d' : Dentry) (st' : Store medium label)
        → IsChanged medium label positive small capacity now d buf some_bytes offset partition known
            update_time limit
            (omega (arith, far))
            st
            d'
            st'
        → ReadsBack (some (done d' st'))
    done-ReadsBack d' st' c =
        let image = tape.block st'.volume.device in
        let f : ℕ → ℕ = bytes_of medium label st'.volume.device d' in
        let word' : d'.size < 2 ^ 63 = omega (arith, c.size) in
        let inside : offset + length buf ≤ d'.size = omega (arith, c.size) in
        let all : min (length buf) (d'.size - offset) ≡ length buf = omega arith in
        let kept = c.cache cache in
        Sound-map image
          (IsRead tape (part_num label) label.blocksize positive small image (length buf) offset
            later far d' word')
          (IsBack st'.volume.device) _
          (λ r v q. (
            q.buf
                ∙ ap (window f offset) all
                ∙ window-list buf f offset (λ y i e k. c.bytes y ∙ written_byte y i e k),
            q.read_count ∙ all,
          ))
          (fsraw_read-inside tape (part_num label) label.blocksize positive small image (length buf)
            offset later far d' word' inside st'.volume
            (record { same = λ q. refl; cached = kept.cached; sized = kept.sized })
            c.on_tape.file.ordered)

    Changed-ReadsBack :
        (o : Option (Attempt medium label))
        → Changed medium label positive small capacity now d buf some_bytes offset partition known
            update_time limit
            (omega (arith, far))
            st
            o
        → ReadsBack o
    Changed-ReadsBack none c = c
    Changed-ReadsBack (some (done d' st')) c = done-ReadsBack d' st' c
    Changed-ReadsBack (some (again code d' st')) c = c.1
    Changed-ReadsBack (some (refused code d' st')) c = c.1

    -- Reading the range that a write has written gives the bytes of the buffer and their number, or
    -- fails with a fault of the device or a block that is short; a write that does not succeed has
    -- a fault behind it. The conditions are those of `fsraw_write-file`, with all offsets below 2^63
    -- and a block cache that holds a block of the tape.
    pub fsraw_read-write :
        IsOnTape medium label st.volume.device d
        → ReadsBack (
            fsraw_write medium label true true now d buf
              (length buf)
              offset
              partition
              update_time
              st)
    fsraw_read-write t = Changed-ReadsBack _ (
        fsraw_write-file medium label positive small capacity now d buf some_bytes offset partition
          known update_time limit (omega (arith, far)) st t)
