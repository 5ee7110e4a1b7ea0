-- ===== src/Extent/AddLoop.antt =====
-- The loop of `_ltfs_fsraw_add_extent_unlocked` over a whole list of extents.
use ltfs.Prelude.{ℕ, ◌+◌, ◌^◌, ◌≤◌, ◌<◌, Bool, List, [], ◌∷◌, arith, refl, ap}
use ltfs.Extent.{ExtentInfo, Loop, add_loop, resume}
use ltfs.Extent.Content.{Fits, Ordered, content, total}
use ltfs.Extent.Outcome.{Outcome, still, done, lost}
use ltfs.Extent.Round.{round-Outcome}

module _ (blocksize : ℕ) (positive : 0 < blocksize) (small : blocksize ≤ 2 ^ 32) (ext : ExtentInfo)
    (fits_ext : Fits blocksize ext) (x : ℕ) (splits : Bool) where
  resume-Outcome :
      (lo : ℕ) (e : ExtentInfo) (es : List ExtentInfo) (realsize : ℕ)
      → lo ≤ e.fileoffset
      → Fits blocksize e
      → Ordered blocksize (e.fileoffset + e.bytecount) es
      → total (e ∷ es) ≤ realsize
      → realsize + ext.bytecount < 2 ^ 64
      → (rest : Loop)
      → Outcome blocksize positive small ext fits_ext x splits
          (e.fileoffset + e.bytecount)
          es
          realsize
          rest
      → Outcome blocksize positive small ext fits_ext x splits lo
          (e ∷ es)
          realsize
          (resume splits blocksize ext e rest)
  unfolding resume content total
  resume-Outcome lo e es realsize from fits o room limit rest (still g) =
      rw (g.progress, resume)
        (round-Outcome blocksize positive small ext fits_ext x splits lo e es realsize rest from
          fits o room limit g)
  resume-Outcome lo e es realsize from fits o room limit rest (done u) =
      rw (u.progress, resume)
        (done (record {
          progress = u.progress;
          ordered = (from, fits, u.ordered);
          behind = omega (arith, u.behind);
          reads = ground (arith, u.reads, u.behind);
          sum = omega (arith, u.sum);
        }))
  resume-Outcome lo e es realsize from fits o room limit rest (lost f) =
      rw (f.progress, resume)
        (lost (record { progress = f.progress; denied = f.denied; same = ap (◌∷◌ e) f.same }))

  -- The loop over extents in order: `ext` is used among them, or lies before what is left, or the
  -- list is as it was.
  pub add_loop-Outcome :
      (lo : ℕ) (es : List ExtentInfo) (realsize : ℕ)
      → Ordered blocksize lo es
      → total es ≤ realsize
      → realsize + ext.bytecount < 2 ^ 64
      → Outcome blocksize positive small ext fits_ext x splits lo es realsize
          (add_loop splits blocksize ext es realsize)
  unfolding add_loop content total
  add_loop-Outcome lo [] realsize o room limit = still (record {
    progress = refl;
    ordered = tt;
    beyond = tt;
    reads = ground arith;
    sum = refl;
    shrunk = omega arith;
    same = λ _. refl;
  })
  add_loop-Outcome lo (e ∷ es) realsize o room limit =
      resume-Outcome lo e es realsize o.0 o.1 o.2 room limit
        (add_loop splits blocksize ext es realsize)
        (add_loop-Outcome (e.fileoffset + e.bytecount) es realsize o.2 (omega arith) limit)
