-- ===== src/Extent/Add.antt =====
-- `_ltfs_fsraw_add_extent_unlocked` on a whole file, against the map from file offsets to tape.
use ltfs.Prelude.{
  ℕ, ◌+◌, ◌^◌, ◌≤◌, ◌<◌, ◌≡◌, ◌⊎◌, inl, inr, Bool, true, false, none, some, List, ◌∷◌, arith,
  if◌then◌else◌, add64, add64_exact, refl, max,
}
use ltfs.Extent.{
  ExtentInfo, Dentry, added, out_of_memory, Loop, going, add_loop, conclude, finish,
  add_extent_unlocked,
}
use ltfs.Extent.Content.{Fits, Ordered, content, covers, address, total}
use ltfs.Extent.Trim.{fileoffset_end_lem}
use ltfs.Extent.Outcome.{Outcome, still, done, lost}
use ltfs.Extent.AddLoop.{add_loop-Outcome}

-- A file as the index may hold it: extents in order, without overlap, none past the end of the
-- file, and `realsize` the number of bytes in them.
pub record IsFile (blocksize : ℕ) (d : Dentry) : Type 0 where
  pub ordered : Ordered blocksize 0 d.extentlist
  pub counted : d.realsize ≡ total d.extentlist
  pub sized : (x : ℕ) → d.size ≤ x → content blocksize d.extentlist x ≡ none

-- the extent list and `realsize_new` when the loop has been left without a failure
abbrev pub taken : ExtentInfo → Loop → List ExtentInfo
taken ext loop = elim loop.progress [ going ↦ ext ∷ loop.entries | _ ↦ loop.entries ]

abbrev pub taken_size : ExtentInfo → Loop → ℕ
taken_size ext loop = elim loop.progress [
  | going ↦ add64 loop.realsize ext.bytecount
  | _ ↦ loop.realsize
]

module _ (blocksize : ℕ) (positive : 0 < blocksize) (small : blocksize ≤ 2 ^ 32) (ext : ExtentInfo)
    (fits_ext : Fits blocksize ext) (update_time : Bool) (now : ℕ) (d : Dentry)
    (file : IsFile blocksize d) (limit : d.realsize + ext.bytecount < 2 ^ 64) where
  abbrev loop : Bool → Loop
  loop splits = add_loop splits blocksize ext d.extentlist d.realsize

  outcome :
      (splits : Bool) (x : ℕ)
      → Outcome blocksize positive small ext fits_ext x splits 0 d.extentlist d.realsize
          (loop splits)
  outcome splits x =
      add_loop-Outcome blocksize positive small ext fits_ext x splits 0 d.extentlist d.realsize
        file.ordered (omega (arith, file.counted)) limit

  abbrev result : Dentry
  result = finish ext update_time now d (taken ext (loop true)) (taken_size ext (loop true))

  -- everything about the new list that does not depend on the offset, and its content at one
  record Taken (x : ℕ) (loop : Loop) : Type 0 where
    concluded :
        conclude update_time now d ext loop
        ≡ added (finish ext update_time now d (taken ext loop) (taken_size ext loop))
    ordered : Ordered blocksize 0 (taken ext loop)
    counted : taken_size ext loop ≡ total (taken ext loop)
    reads : content blocksize (taken ext loop) x ≡ (
        if covers ext x then some (address blocksize ext x) else content blocksize d.extentlist x)

  Taken-of_Outcome :
      (x : ℕ) (loop : Loop)
      → Outcome blocksize positive small ext fits_ext x true 0 d.extentlist d.realsize loop
      → Taken x loop
  unfolding conclude content total
  Taken-of_Outcome x loop (still g) =
      rw (g.progress, conclude)
        (record {
          concluded = refl;
          ordered = (omega arith, fits_ext, g.beyond);
          counted = omega (
            arith,
            g.sum,
            g.shrunk,
            file.counted,
            add64_exact loop.realsize ext.bytecount (omega (arith, g.shrunk)),
          );
          reads = ground (arith, g.reads);
        })
  Taken-of_Outcome x loop (done u) =
      rw (u.progress, conclude)
        (record {
          concluded = refl;
          ordered = u.ordered;
          counted = omega (arith, u.sum, file.counted);
          reads = u.reads;
        })
  Taken-of_Outcome x loop (lost f) = absurd (cc (f.denied))

  Taken-at : (x : ℕ) → Taken x (loop true)
  Taken-at x = Taken-of_Outcome x (loop true) (outcome true x)

  -- On a well-formed file, with a block size of 1 to 2^32 bytes, a new extent whose ranges of the
  -- file and of the tape end below 2^64, and `realsize` plus its bytes below 2^64: when both
  -- allocations succeed, the call succeeds and leaves a well-formed file. A byte of the file that
  -- the new extent covers is then read from the new extent, and every other byte from where it
  -- was. The size is the larger of the old one and the end of the new extent, the extents are
  -- marked dirty, and the two times are set to now exactly if `update_time` is set.
  pub add_extent-content :
      (d' : Dentry) × (add_extent_unlocked true true blocksize update_time now d ext ≡ added d')
      × IsFile blocksize d'
      × ((x : ℕ)
          → content blocksize d'.extentlist x ≡ (
              if covers ext x
              then some (address blocksize ext x)
              else content blocksize d.extentlist x))
      × (d'.size ≡ max d.size (ext.fileoffset + ext.bytecount))
      × (d'.extents_dirty ≡ true)
      × (d'.modify_time ≡ (if update_time then now else d.modify_time))
      × (d'.change_time ≡ (if update_time then now else d.change_time))
  unfolding add_extent_unlocked finish
  add_extent-content =
      let end = fileoffset_end_lem blocksize positive small ext fits_ext in
      (
        result,
        (Taken-at 0).concluded,
        record {
          ordered = (Taken-at 0).ordered;
          counted = (Taken-at 0).counted;
          sized = λ x h. ground (arith, end, file.sized x, (Taken-at x).reads);
        },
        λ x. (Taken-at x).reads,
        ground (arith, end),
        refl,
        refl,
        refl,
      )

  lost-same :
      (splits : Bool) (loop : Loop) {d' : Dentry}
      → Outcome blocksize positive small ext fits_ext 0 splits 0 d.extentlist d.realsize loop
      → conclude update_time now d ext loop ≡ out_of_memory d'
      → (d' ≡ d) × (splits ≡ false)
  unfolding conclude
  lost-same splits loop (still g) h = absurd (ground (arith, g.progress))
  lost-same splits loop (done u) h = absurd (ground (arith, u.progress))
  lost-same splits loop (lost f) h = ground (arith, f.progress, f.same, f.denied)

  -- Under the conditions of `add_extent-content`, a call that runs out of memory leaves the file
  -- as it was, and one of the two allocations has failed.
  pub add_extent-out_of_memory :
      (copies splits : Bool) {d' : Dentry}
      → add_extent_unlocked copies splits blocksize update_time now d ext ≡ out_of_memory d'
      → (d' ≡ d) × ((copies ≡ false) ⊎ (splits ≡ false))
  unfolding add_extent_unlocked
  add_extent-out_of_memory true splits h =
      let (same, denied) = lost-same splits (loop splits) (outcome splits 0) h in (same, inr denied)
  add_extent-out_of_memory false splits h = (ground arith, inl refl)
