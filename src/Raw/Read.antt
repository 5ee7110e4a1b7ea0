-- ===== src/Raw/Read.antt =====
-- `ltfs_fsraw_read` on a whole file.
use ltfs.Prelude.{
  ℕ, ◌+◌, ◌-◌, ◌^◌, ◌≤◌, ◌<◌, ◌≡◌, refl, inl, inr, ◌⊎◌, true, List, ◌++◌, replicate, arith, ltb,
  ◌&&◌, min, ◌∙◌, ap, sub64, add64, sub64_exact, add64_exact, Bool-cases, if◌then◌else◌, false,
  none, some, [], ◌==◌,
}
use ltfs.Extent.{Dentry}
use ltfs.Extent.Content.{Ordered}
use ltfs.Raw.Device.{Tape}
use ltfs.Raw.{
  Volume, Result, Progress, Reading, ok, failed, out_of_fuel, fill_end, complete, fsraw_read,
}
use ltfs.Raw.Window.{window, window-add, replicate-window}
use ltfs.Raw.Block.{Holds, Sound}
use ltfs.Raw.Bytes.{file_byte}
use ltfs.Raw.Parts.{Part, Parts}
use ltfs.Raw.Extents.{Within, extents-Reading}

module _ (tape : Tape) (part_num : ℕ → ℕ) (blocksize : ℕ) (positive : 0 < blocksize)
    (small : blocksize ≤ 2 ^ 32) (image : ℕ × ℕ → List ℕ) (count offset now : ℕ)
    (far : offset + count < 2 ^ 63) (d : Dentry) (word : d.size < 2 ^ 63) where
  -- the number of bytes there are to read
  abbrev available : ℕ
  available = min count (d.size - offset)

  -- What a read that succeeds returns, on a tape that has the blocks of `image`: the bytes of the
  -- file from the offset on, zeros in its holes, up to the end of the file, and their number.
  pub record IsRead (r : Reading tape part_num blocksize) (vol : Volume tape part_num blocksize)
      : Type 0 where
    pub holds : Holds tape part_num blocksize image vol
    pub buf : r.buf ≡ window (file_byte part_num blocksize image d.extentlist) offset available
    pub read_count : r.read_count ≡ available
    pub access_time : r.access_time ≡ (if count == 0 then none else some now)

  abbrev last_off : ℕ
  last_off = offset + count

  abbrev bytes_at : ℕ → ℕ
  bytes_at = file_byte part_num blocksize image d.extentlist

  module _ (short : count < 2 ^ 63) (wanted : (count == 0) ≡ false)
      (p : Progress tape part_num blocksize) (vol : Volume tape part_num blocksize)
      (q : Part tape part_num blocksize positive small image count last_off far short d.size
        bytes_at offset p vol) where
    -- all has been read, or the end of the file is reached
    finished :
        (count ≤ p.read_count) ⊎ (d.size ≤ p.next_off)
        → IsRead (record { buf = p.bytes; read_count = p.read_count; access_time = some now }) vol
    finished k =
        let all : p.read_count ≡ available = grind (arith, q.inside, q.enough, q.started, q.next) in
        let n : p.read_count + (last_off - offset) - count ≡ available = omega (arith, all) in
        record {
          holds = q.holds;
          buf = q.bytes ∙ ap (window bytes_at offset) n;
          read_count = all;
          access_time = rw wanted refl;
        }

    -- the file ends in a hole
    module _ (k : p.read_count < count) (l : p.next_off < d.size) where
      abbrev ncopy : ℕ
      ncopy = sub64 (if ltb last_off d.size then last_off else d.size) p.next_off

      ncopy_lem : ncopy ≡ min last_off d.size - p.next_off
      ncopy_lem =
          let earlier : (if ltb last_off d.size then last_off else d.size) ≡ min last_off d.size =
            ground arith in
          rw earlier (sub64_exact _ _ (omega (arith, q.next k, q.enough)) (omega arith))

      count_lem : add64 p.read_count ncopy ≡ available
      count_lem =
          add64_exact p.read_count ncopy (omega (arith, ncopy_lem, q.next k))
          ∙ omega (arith, ncopy_lem, q.next k, q.started)

      hole_lem : replicate ncopy 0 ≡ window bytes_at p.next_off ncopy
      hole_lem =
          replicate-window bytes_at 0 p.next_off ncopy
            (λ y m n. q.zeros k y m (omega (arith, ncopy_lem)))

      filled :
          IsRead
            (record {
              buf = p.bytes ++ replicate ncopy 0;
              read_count = add64 p.read_count ncopy;
              access_time = some now;
            })
            vol
      filled = record {
        holds = q.holds;
        buf =
            rw (q.bytes, hole_lem)
              (window-add bytes_at offset _ p.next_off ncopy available
                (omega (arith, q.next k, q.started))
                (omega (arith, ncopy_lem, q.next k, q.started)));
        read_count = count_lem;
        access_time = rw wanted refl;
      }

  pub complete-IsRead :
      (short : count < 2 ^ 63) (wanted : (count == 0) ≡ false)
      (r : Result tape part_num blocksize (Progress tape part_num blocksize))
      → Parts tape part_num blocksize positive small image count
          (offset + count)
          far
          short
          d.size
          (file_byte part_num blocksize image d.extentlist)
          offset
          r
      → Sound tape part_num blocksize image IsRead
          (complete tape part_num blocksize now count (offset + count) d.size r)
  unfolding complete fill_end
  complete-IsRead short wanted (failed code vol) p = p
  complete-IsRead short wanted out_of_fuel p = p
  complete-IsRead short wanted (ok p vol) q =
      elim (Bool-cases (ltb p.read_count count && ltb p.next_off d.size)) [
        | inl k ↦ rw k (filled short wanted p vol q (ground arith) (ground arith))
        | inr k ↦ rw k (finished short wanted p vol q (ground arith))
      ]

  -- a read of no bytes
  pub nothing-IsRead :
      (vol : Volume tape part_num blocksize)
      → Holds tape part_num blocksize image vol
      → (count == 0) ≡ true
      → IsRead (record { buf = []; read_count = 0; access_time = none }) vol
  nothing-IsRead vol h t =
      let zero_available : available ≡ 0 = ground (arith, t) in
      record {
        holds = h;
        buf = rw zero_available refl;
        read_count = rw zero_available refl;
        access_time = rw t refl;
      }

  -- On a tape that has the blocks of `image`, the one read last included, and for a file whose
  -- extents are in order, without overlap and within its size, with a block size of 1 to 2^32 bytes
  -- and all offsets below 2^63, a read either succeeds or fails. If it succeeds, it returns the
  -- bytes of the file from the offset on, zeros in the holes, up to the file's end or as many as
  -- are wanted, and their number; it sets the access time to now, unless no bytes are wanted; and what the block cache holds
  -- is a block of the tape again. It fails only with a code that the device has failed with, or
  -- because a block of the tape is shorter than a full one. The block cache is allocated.
  pub fsraw_read-file :
      (vol : Volume tape part_num blocksize)
      → Holds tape part_num blocksize image vol
      → Ordered blocksize 0 d.extentlist
      → Within d.size d.extentlist
      → Sound tape part_num blocksize image IsRead
          (fsraw_read tape part_num blocksize true now d count offset vol)
  unfolding fsraw_read
  fsraw_read-file vol h o w =
      let exact : add64 offset count ≡ offset + count = add64_exact offset count (omega arith) in
      let short : count < 2 ^ 63 = omega arith in
      elim (Bool-cases (count == 0)) [
        | inl t ↦ rw (fsraw_read, t) (nothing-IsRead vol h t)
        | inr f ↦
            rw (fsraw_read, f, exact)
              (complete-IsRead short f _ (
                extents-Reading tape part_num blocksize positive small image count (offset + count)
                  far short d.size 0 d.extentlist o w offset 0 vol h (omega arith) (omega arith)))
      ]
