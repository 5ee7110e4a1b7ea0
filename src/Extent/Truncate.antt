-- ===== src/Extent/Truncate.antt =====
-- `ltfs_fsraw_truncate`, against the map from file offsets to tape.
use ltfs.Prelude.{
  ℕ, ◌+◌, ◌-◌, ◌^◌, ◌≤◌, ◌<◌, ◌≡◌, inl, inr, true, false, none, List, [], ◌∷◌, arith, ltb,
  if◌then◌else◌, sub64, sub64_exact, Bool-cases, refl, lt→ltb, le→ltb_not, le→leb,
}
use native.Mathlib.Decide.{dec_lt, dec_le}
use ltfs.Extent.{
  ExtentInfo, Dentry, Cut, truncate_body, truncate_loop, truncate_resume, truncate, cut_back,
  fileoffset_end,
}
use ltfs.Extent.Content.{Fits, Ordered, content, Ordered-mono, total, content-below}
use ltfs.Extent.Trim.{fileoffset_end_lem, cut_back_lem}
use ltfs.Extent.Add.{IsFile}

module _ (blocksize : ℕ) (positive : 0 < blocksize) (small : blocksize ≤ 2 ^ 32) (length : ℕ)
    (word : length < 2 ^ 64) (x : ℕ) where
  record IsCut (lo : ℕ) (es : List ExtentInfo) (realsize : ℕ) (cut : Cut) : Type 0 where
    ordered : Ordered blocksize lo cut.entries
    behind : cut.stopped ≡ true → lo ≤ length
    reads :
        content blocksize cut.entries x ≡ (if ltb x length then content blocksize es x else none)
    sum : cut.realsize + total es ≡ realsize + total cut.entries
    shrunk : cut.realsize ≤ realsize

  module _ (lo : ℕ) (e : ExtentInfo) (es : List ExtentInfo) (realsize : ℕ) (rest : Cut)
      (from : lo ≤ e.fileoffset) (fits : Fits blocksize e)
      (o : Ordered blocksize (e.fileoffset + e.bytecount) es)
      (room : e.bytecount + total es ≤ realsize) (limit : realsize < 2 ^ 64)
      (c : IsCut (e.fileoffset + e.bytecount) es realsize rest) where
    abbrev e_end : ℕ
    e_end = e.fileoffset + e.bytecount

    e_end_eq : fileoffset_end e ≡ e_end
    e_end_eq = fileoffset_end_lem blocksize positive small e fits

    disjoint : x < e_end → content blocksize es x ≡ none
    disjoint h = content-below blocksize e_end es x o h

    shortened_eq :
        e.fileoffset < length
        → length < e_end
        → truncate_body length e rest.entries rest.realsize ≡ record {
          entries = record e { bytecount = (cut_back length e).bytecount } ∷ rest.entries;
          realsize = sub64 rest.realsize (e_end - length);
          stopped = false;
        }
    unfolding truncate_body cut_back
    shortened_eq h k = ground (arith, e_end_eq, sub64_exact e_end length (omega arith) fits.in_file)

    whole_eq :
        e.fileoffset < length
        → e_end ≤ length
        → truncate_body length e rest.entries rest.realsize
          ≡ record { entries = e ∷ rest.entries; realsize = rest.realsize; stopped = true }
    unfolding truncate_body
    whole_eq h k = ground (arith, e_end_eq)

    removed :
        length ≤ e.fileoffset
        → IsCut lo (e ∷ es) realsize (truncate_body length e rest.entries rest.realsize)
    unfolding truncate_body content total
    removed h =
        let less =
          sub64_exact rest.realsize e.bytecount (omega (arith, c.sum)) (omega (arith, c.shrunk)) in
        rw (le→leb length e.fileoffset h, truncate_body)
          (record {
            ordered = Ordered-mono blocksize e_end lo rest.entries (omega arith) c.ordered;
            behind = λ h. absurd (cc h);
            reads = ground (arith, c.reads);
            sum = omega (arith, c.sum, less);
            shrunk = omega (arith, c.shrunk, less);
          })

    abbrev back : ExtentInfo
    back = cut_back length e

    shortened :
        e.fileoffset < length
        → length < e_end
        → IsCut lo (e ∷ es) realsize (truncate_body length e rest.entries rest.realsize)
    unfolding content total
    shortened h k =
        let less =
          sub64_exact rest.realsize (e_end - length) (omega (arith, c.sum))
            (omega (arith, c.shrunk)) in
        let end = cut_back_lem blocksize positive small length e (omega arith) word in
        rw (shortened_eq h k) (record {
          ordered = (
            from,
            omega (arith, fits.in_file, fits.on_tape, end),
            Ordered-mono blocksize e_end (e.fileoffset + back.bytecount) rest.entries
                (omega (arith, end)) c.ordered,
          );
          behind = λ h. absurd (cc h);
          reads = ground (arith, c.reads, end, disjoint);
          sum = omega (arith, c.sum, less, end);
          shrunk = omega (arith, c.shrunk, less);
        })

    whole :
        e.fileoffset < length
        → e_end ≤ length
        → IsCut lo (e ∷ es) realsize (truncate_body length e rest.entries rest.realsize)
    unfolding content total
    whole h k = rw (whole_eq h k) (record {
      ordered = (from, fits, c.ordered);
      behind = λ _. omega arith;
      reads = ground (arith, c.reads);
      sum = omega (arith, c.sum);
      shrunk = c.shrunk;
    })

    body-IsCut : IsCut lo (e ∷ es) realsize (truncate_body length e rest.entries rest.realsize)
    body-IsCut = elim (dec_le length e.fileoffset) [
      | yes h ↦ removed h
      | no h ↦ elim (dec_lt length e_end) [
        | yes k ↦ shortened (omega arith) k
        | no k ↦ whole (omega arith) (omega arith)
      ]
    ]

    stopped-IsCut :
        rest.stopped ≡ true
        → IsCut lo
            (e ∷ es)
            realsize
            (record { entries = e ∷ rest.entries; realsize = rest.realsize; stopped = true })
    unfolding content total
    stopped-IsCut s = record {
      ordered = (from, fits, c.ordered);
      behind = λ _. omega (arith, c.behind s);
      reads = ground (arith, c.reads, c.behind s);
      sum = omega (arith, c.sum);
      shrunk = c.shrunk;
    }

    resume-IsCut : IsCut lo (e ∷ es) realsize (truncate_resume length e rest)
    unfolding truncate_resume
    resume-IsCut = elim (Bool-cases rest.stopped) [
      | inl s ↦ rw (s, truncate_resume) (stopped-IsCut s)
      | inr s ↦ rw (s, truncate_resume) body-IsCut
    ]

  truncate_loop-IsCut :
      (lo : ℕ) (es : List ExtentInfo) (realsize : ℕ)
      → Ordered blocksize lo es
      → total es ≤ realsize
      → realsize < 2 ^ 64
      → IsCut lo es realsize (truncate_loop length es realsize)
  unfolding truncate_loop content total
  truncate_loop-IsCut lo [] realsize o room limit = record {
    ordered = tt;
    behind = λ h. absurd (cc h);
    reads = ground arith;
    sum = refl;
    shrunk = omega arith;
  }
  truncate_loop-IsCut lo (e ∷ es) realsize o room limit =
      resume-IsCut lo e es realsize (truncate_loop length es realsize) o.0 o.1 o.2 room limit
        (truncate_loop-IsCut (e.fileoffset + e.bytecount) es realsize o.2 (omega arith) limit)

module _ (blocksize : ℕ) (positive : 0 < blocksize) (small : blocksize ≤ 2 ^ 32) (length now : ℕ)
    (word : length < 2 ^ 64) (d : Dentry) (file : IsFile blocksize d)
    (limit : d.realsize < 2 ^ 64) where
  IsCut-at :
      (x : ℕ)
      → IsCut blocksize positive small length word x 0 d.extentlist d.realsize
          (truncate_loop length d.extentlist d.realsize)
  IsCut-at x =
      truncate_loop-IsCut blocksize positive small length word x 0 d.extentlist d.realsize
        file.ordered (omega (arith, file.counted)) limit

  -- On a well-formed file whose `realsize` is below 2^64, with a block size of 1 to 2^32 bytes and
  -- a wanted size below 2^64, truncation leaves a well-formed file of exactly the wanted size. It
  -- reads as before below that size, and holds nothing from there on, also when the file grows.
  pub truncate-content :
      IsFile blocksize (truncate now length d)
      × ((truncate now length d).size ≡ length)
      × ((x : ℕ)
          → content blocksize (truncate now length d).extentlist x
            ≡ (if ltb x length then content blocksize d.extentlist x else none))
  unfolding truncate
  truncate-content = elim (dec_lt length d.size) [
    | yes h ↦
        rw (lt→ltb length d.size h, truncate)
          (
            record {
              ordered = (IsCut-at 0).ordered;
              counted = omega (arith, (IsCut-at 0).sum, file.counted);
              sized = λ x k. ground (arith, (IsCut-at x).reads);
            },
            refl,
            λ x. (IsCut-at x).reads,
          )
    | no h ↦
        rw (le→ltb_not d.size length (omega arith), truncate)
          (
            record {
              ordered = file.ordered;
              counted = file.counted;
              sized = λ x k. file.sized x (omega arith);
            },
            refl,
            λ x. ground (arith, file.sized x),
          )
  ]
