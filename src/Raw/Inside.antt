-- ===== src/Raw/Inside.antt =====
-- Reading a range that lies in the file, wherever its extents end.
use ltfs.Prelude.{
  inl, inr, ◌==◌, Bool-cases, ℕ, ◌+◌, ◌^◌, ◌≤◌, ◌<◌, ◌≡◌, true, List, [], ◌∷◌, arith, max, add64,
  add64_exact,
}
use ltfs.Extent.{ExtentInfo, Dentry}
use ltfs.Extent.Content.{Ordered}
use ltfs.Raw.Device.{Tape}
use ltfs.Raw.{Volume, Result, Progress, ok, failed, out_of_fuel, fsraw_read}
use ltfs.Raw.Block.{Holds, Sound}
use ltfs.Raw.Parts.{Parts}
use ltfs.Raw.Extents.{Within, extents-Reading}
use ltfs.Raw.Read.{IsRead, complete-IsRead, nothing-IsRead}

-- where the last of the extents ends
ends : List ExtentInfo → ℕ
ends [] = 0
ends (e ∷ es) = max (e.fileoffset + e.bytecount) (ends es)

Within-ends : (n : ℕ) (es : List ExtentInfo) → ends es ≤ n → Within n es
unfolding ends
Within-ends n [] h = tt
Within-ends n (e ∷ es) h = (omega arith, Within-ends n es (omega arith))

module _ (tape : Tape) (part_num : ℕ → ℕ) (blocksize : ℕ) (positive : 0 < blocksize)
    (small : blocksize ≤ 2 ^ 32) (image : ℕ × ℕ → List ℕ) (count offset now : ℕ)
    (far : offset + count < 2 ^ 63) (d : Dentry) (word : d.size < 2 ^ 63)
    (inside : offset + count ≤ d.size) where
  Parts-size :
      (short : count < 2 ^ 63) (size : ℕ) (f : ℕ → ℕ)
      (r : Result tape part_num blocksize (Progress tape part_num blocksize))
      → Parts tape part_num blocksize positive small image count
          (offset + count)
          far
          short
          size
          f
          offset
          r
      → Parts tape part_num blocksize positive small image count
          (offset + count)
          far
          short
          d.size
          f
          offset
          r
  Parts-size short size f (ok p vol) q = record {
    holds = q.holds;
    enough = q.enough;
    started = q.started;
    bytes = q.bytes;
    inside = omega (arith, q.enough);
    next = q.next;
    zeros = q.zeros;
  }
  Parts-size short size f (failed code vol) q = q
  Parts-size short size f out_of_fuel q = q

  pub fsraw_read-inside :
      (vol : Volume tape part_num blocksize)
      → Holds tape part_num blocksize image vol
      → Ordered blocksize 0 d.extentlist
      → Sound tape part_num blocksize image
          (IsRead tape part_num blocksize positive small image count offset now far d word)
          (fsraw_read tape part_num blocksize true now d count offset vol)
  unfolding fsraw_read
  fsraw_read-inside vol h o =
      let exact : add64 offset count ≡ offset + count = add64_exact offset count (omega arith) in
      let short : count < 2 ^ 63 = omega arith in
      let size : ℕ = ends d.extentlist in
      elim (Bool-cases (count == 0)) [
        | inl t ↦
            rw (fsraw_read, t)
              (nothing-IsRead tape part_num blocksize positive small image count offset now far d
                word vol h t)
        | inr f ↦
            rw (fsraw_read, f, exact)
              (complete-IsRead tape part_num blocksize positive small image count offset now far d
                word short f _
                (Parts-size short size _ _ (
                  extents-Reading tape part_num blocksize positive small image count
                    (offset + count) far short size 0 d.extentlist o
                    (Within-ends size d.extentlist (omega arith)) offset 0 vol h (omega arith)
                    (omega arith))))
      ]
