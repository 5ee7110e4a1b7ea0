-- ===== src/Extent/Body.antt =====
-- One round of the loop of `_ltfs_fsraw_add_extent_unlocked`, by how the new extent and the entry
-- overlap.
use ltfs.Prelude.{
  ℕ, ◌+◌, ◌-◌, ◌^◌, ◌≤◌, ◌<◌, ◌≡◌, ◌⊎◌, inl, inr, Bool, true, false, none, some, List, ◌∷◌, arith,
  if◌then◌else◌, add64, sub64, add64_exact, sub64_exact, Bool-cases, refl, le→leb,
}
use ltfs.Extent.{
  ExtentInfo, Loop, going, used, deleted, kept, no_memory, trim, place, continues, cut_front,
  cut_back, fileoffset_end,
}
use ltfs.Extent.Content.{Fits, Ordered, content, covers, Ordered-mono, address, total}
use ltfs.Extent.Trim.{fileoffset_end_lem, continues-IsNext}

module _ (blocksize : ℕ) (positive : 0 < blocksize) (small : blocksize ≤ 2 ^ 32)
    (ext e : ExtentInfo) (fits_ext : Fits blocksize ext) (fits : Fits blocksize e)
    (behind : List ExtentInfo) (realsize : ℕ) where
  abbrev ext_end : ℕ
  ext_end = ext.fileoffset + ext.bytecount

  abbrev e_end : ℕ
  e_end = e.fileoffset + e.bytecount

  ext_end_eq : fileoffset_end ext ≡ ext_end
  ext_end_eq = fileoffset_end_lem blocksize positive small ext fits_ext

  e_end_eq : fileoffset_end e ≡ e_end
  e_end_eq = fileoffset_end_lem blocksize positive small e fits

  -- the new extent begins before the end of the entry
  pub place-going :
      ext.fileoffset < e_end
      → place blocksize ext e behind realsize
        ≡ record { entries = e ∷ behind; realsize = realsize; progress = going }
  unfolding place continues
  place-going h = ground (arith, e_end_eq)

  -- the new extent begins at or behind the end of the entry: it is taken
  pub record Took (lo x : ℕ) (loop : Loop) : Type 0 where
    pub progress : loop.progress ≡ used
    pub ordered : Ordered blocksize lo loop.entries
    pub reads : content blocksize loop.entries x ≡ (
        if covers ext x then some (address blocksize ext x) else content blocksize (e ∷ behind) x)
    pub sum : total loop.entries ≡ total (e ∷ behind) + ext.bytecount
    pub grown : loop.realsize ≡ add64 realsize ext.bytecount

  pub place-Took :
      (lo x : ℕ)
      → e_end ≤ ext.fileoffset
      → lo ≤ e.fileoffset
      → Ordered blocksize ext_end behind
      → Took lo x (place blocksize ext e behind realsize)
  unfolding place content total
  place-Took lo x h l o = elim (Bool-cases (continues blocksize ext e)) [
    | inl c ↦
        let next = continues-IsNext blocksize positive small ext e fits c in
        let exact =
          add64_exact e.bytecount ext.bytecount (omega (arith, next.in_file, fits_ext.in_file)) in
        rw (c, place)
          (record {
            progress = refl;
            ordered = (
              l,
              omega (arith, exact, next.on_tape, next.in_file, fits_ext.on_tape, fits_ext.in_file),
              rw exact (
                  Ordered-mono blocksize ext_end (e.fileoffset + (e.bytecount + ext.bytecount))
                    behind (omega (arith, next.in_file)) o),
            );
            reads = rw exact (ground (arith, next.on_tape, next.in_file, next.partition));
            sum = omega (arith, exact);
            grown = refl;
          })
    | inr c ↦
        rw (c, place, e_end_eq, le→leb e_end ext.fileoffset h)
          (record {
            progress = refl;
            ordered = (l, fits, (h, fits_ext, o));
            reads = ground arith;
            sum = omega arith;
            grown = refl;
          })
  ]

  -- which of its five cases the first half takes
  pub trim-deleted :
      (splits : Bool)
      → ext.fileoffset ≤ e.fileoffset
      → e.fileoffset < ext_end
      → e_end ≤ ext_end
      → trim splits blocksize ext e realsize ≡ deleted (sub64 realsize e.bytecount)
  unfolding trim
  trim-deleted splits h k l = ground (arith, ext_end_eq, e_end_eq)

  pub trim-front :
      (splits : Bool)
      → ext.fileoffset ≤ e.fileoffset
      → e.fileoffset < ext_end
      → ext_end < e_end
      → trim splits blocksize ext e realsize
        ≡ kept
            (cut_front blocksize (ext_end - e.fileoffset) e)
            none
            (sub64 realsize (ext_end - e.fileoffset))
  unfolding trim
  trim-front splits h k l =
      ground (
        arith,
        ext_end_eq,
        e_end_eq,
        sub64_exact ext_end e.fileoffset (omega arith) fits_ext.in_file,
      )

  pub trim-back :
      (splits : Bool)
      → e.fileoffset < ext.fileoffset
      → ext.fileoffset < e_end
      → e_end ≤ ext_end
      → trim splits blocksize ext e realsize
        ≡ kept (cut_back ext.fileoffset e) none (sub64 realsize (e_end - ext.fileoffset))
  unfolding trim
  trim-back splits h k l =
      ground
        (arith, ext_end_eq, e_end_eq, sub64_exact e_end ext.fileoffset (omega arith) fits.in_file)

  -- the new entry behind a split: what the new extent does not reach of the old one
  abbrev pub remainder : ExtentInfo
  remainder = record (cut_front blocksize (ext_end - e.fileoffset) e) { fileoffset = ext_end }

  pub trim-split :
      e.fileoffset < ext.fileoffset
      → ext_end < e_end
      → trim true blocksize ext e realsize
        ≡ kept (cut_back ext.fileoffset e) (some remainder) (sub64 realsize ext.bytecount)
  unfolding trim
  trim-split h l =
      ground (
        arith,
        ext_end_eq,
        e_end_eq,
        sub64_exact ext_end e.fileoffset (omega arith) fits_ext.in_file,
      )

  pub trim-no_memory :
      e.fileoffset < ext.fileoffset
      → ext_end < e_end
      → trim false blocksize ext e realsize ≡ no_memory
  unfolding trim
  trim-no_memory h l = ground (arith, ext_end_eq, e_end_eq)

  pub trim-kept :
      (splits : Bool)
      → (ext_end ≤ e.fileoffset) ⊎ ((e.fileoffset < ext.fileoffset) × (e_end ≤ ext.fileoffset))
      → trim splits blocksize ext e realsize ≡ kept e none realsize
  unfolding trim
  trim-kept splits h = ground (arith, ext_end_eq, e_end_eq)
