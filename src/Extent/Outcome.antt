-- ===== src/Extent/Outcome.antt =====
-- What the loop of `_ltfs_fsraw_add_extent_unlocked` has done with the entries that it has passed.
use ltfs.Prelude.{ℕ, ◌+◌, ◌^◌, ◌≤◌, ◌<◌, ◌≡◌, Bool, false, none, some, List, if◌then◌else◌}
use ltfs.Extent.{ExtentInfo, Loop, going, used, failed}
use ltfs.Extent.Content.{Fits, Ordered, content, covers, address, total}

module _ (blocksize : ℕ) (positive : 0 < blocksize) (small : blocksize ≤ 2 ^ 32) (ext : ExtentInfo)
    (fits_ext : Fits blocksize ext) (x : ℕ) (splits : Bool) where
  abbrev ext_end : ℕ
  ext_end = ext.fileoffset + ext.bytecount

  -- The loop has passed the entries `es`, which begin at `lo`, and has not used `ext`: what is
  -- left of them stands behind `ext`.
  pub record Going (lo : ℕ) (es : List ExtentInfo) (realsize : ℕ) (loop : Loop) : Type 0 where
    pub progress : loop.progress ≡ going
    pub ordered : Ordered blocksize lo loop.entries
    pub beyond : Ordered blocksize ext_end loop.entries
    pub reads :
        content blocksize loop.entries x ≡ (if covers ext x then none else content blocksize es x)
    pub sum : loop.realsize + total es ≡ realsize + total loop.entries
    pub shrunk : loop.realsize ≤ realsize
    pub same : ext_end ≤ lo → loop.entries ≡ es

  -- the loop has used `ext` among the entries
  pub record Used (lo : ℕ) (es : List ExtentInfo) (realsize : ℕ) (loop : Loop) : Type 0 where
    pub progress : loop.progress ≡ used
    pub ordered : Ordered blocksize lo loop.entries
    pub behind : lo ≤ ext.fileoffset
    pub reads :
        content blocksize loop.entries x
        ≡ (if covers ext x then some (address blocksize ext x) else content blocksize es x)
    pub sum : loop.realsize + total es ≡ realsize + total loop.entries

  -- an allocation failed, and the list is as it was
  pub record Failed (es : List ExtentInfo) (loop : Loop) : Type 0 where
    pub progress : loop.progress ≡ failed
    pub denied : splits ≡ false
    pub same : loop.entries ≡ es

  pub data Outcome (lo : ℕ) (es : List ExtentInfo) (realsize : ℕ) (loop : Loop) : Type 0 where
    still : Going lo es realsize loop → Outcome lo es realsize loop
    done : Used lo es realsize loop → Outcome lo es realsize loop
    lost : Failed es loop → Outcome lo es realsize loop
