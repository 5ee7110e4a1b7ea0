-- ===== src/Extent/Round.antt =====
-- One round of the loop, in each way that the new extent and the entry can overlap.
use native.Mathlib.Decide.{dec_lt, dec_le}
use ltfs.Prelude.{
  ℕ, ◌+◌, ◌-◌, ◌^◌, ◌≤◌, ◌<◌, ◌≡◌, ◌⊎◌, inl, inr, Bool, true, false, none, List, ◌∷◌, arith, sub64,
  add64_exact, sub64_exact, Bool-cases, refl, ap,
}
use ltfs.Extent.{ExtentInfo, Loop, body, insert_split, cut_front, cut_back}
use ltfs.Extent.Content.{Fits, Ordered, content, Ordered-mono, total, content-below}
use ltfs.Extent.Trim.{cut_back_lem, cut_front_lem}
use ltfs.Extent.Body.{
  trim-deleted, trim-front, trim-back, trim-split, trim-no_memory, trim-kept, place-going,
  place-Took, remainder,
}
use ltfs.Extent.Outcome.{Outcome, still, done, lost, Going, Used, Failed}

module _ (blocksize : ℕ) (positive : 0 < blocksize) (small : blocksize ≤ 2 ^ 32) (ext : ExtentInfo)
    (fits_ext : Fits blocksize ext) (x : ℕ) (splits : Bool) where
  abbrev ext_end : ℕ
  ext_end = ext.fileoffset + ext.bytecount

  module _ (lo : ℕ) (e : ExtentInfo) (es : List ExtentInfo) (realsize : ℕ) (rest : Loop)
      (from : lo ≤ e.fileoffset) (fits : Fits blocksize e)
      (o : Ordered blocksize (e.fileoffset + e.bytecount) es) (room : total (e ∷ es) ≤ realsize)
      (limit : realsize + ext.bytecount < 2 ^ 64)
      (g : Going blocksize positive small ext fits_ext x splits
        (e.fileoffset + e.bytecount)
        es
        realsize
        rest) where
    abbrev e_end : ℕ
    e_end = e.fileoffset + e.bytecount

    abbrev round : Loop
    round = body splits blocksize ext e rest.entries rest.realsize

    -- nothing of the entry's bytes lies behind it
    disjoint : x < e_end → content blocksize es x ≡ none
    disjoint h = content-below blocksize e_end es x o h

    covered :
        ext.fileoffset ≤ e.fileoffset
        → e.fileoffset < ext_end
        → e_end ≤ ext_end
        → Going blocksize positive small ext fits_ext x splits lo (e ∷ es) realsize round
    unfolding body total content
    covered h k l =
        rw
          (
            trim-deleted blocksize positive small ext e fits_ext fits rest.entries rest.realsize
                splits h k l,
            body,
          )
          (record {
            progress = refl;
            ordered = Ordered-mono blocksize e_end lo rest.entries (omega arith) g.ordered;
            beyond = g.beyond;
            reads = ground (arith, g.reads);
            sum = omega (
              arith,
              g.sum,
              sub64_exact rest.realsize e.bytecount (omega (arith, g.sum))
                  (omega (arith, g.shrunk)),
            );
            shrunk = omega (
              arith,
              g.shrunk,
              g.sum,
              sub64_exact rest.realsize e.bytecount (omega (arith, g.sum))
                  (omega (arith, g.shrunk)),
            );
            same = λ q. absurd (omega arith);
          })

    abbrev front : ExtentInfo
    front = cut_front blocksize (ext_end - e.fileoffset) e

    -- the entry loses its beginning
    from_front :
        ext.fileoffset ≤ e.fileoffset
        → e.fileoffset < ext_end
        → ext_end < e_end
        → Going blocksize positive small ext fits_ext x splits lo (e ∷ es) realsize round
    unfolding body total content insert_split
    from_front h k l =
        let c =
          cut_front_lem blocksize positive small (ext_end - e.fileoffset) e fits (omega arith) in
        let fits_c : Fits blocksize front =
          omega (arith, c.place, c.bytecount, c.fileoffset, fits.in_file, fits.on_tape) in
        let less =
          sub64_exact rest.realsize (ext_end - e.fileoffset) (omega (arith, g.sum))
            (omega (arith, g.shrunk)) in
        rw
          (
            trim-front blocksize positive small ext e fits_ext fits rest.entries rest.realsize
                splits h k l,
            body,
            place-going blocksize positive small ext front fits_ext fits_c rest.entries
                (sub64 rest.realsize (ext_end - e.fileoffset))
                (omega (arith, c.fileoffset, c.bytecount)),
          )
          (record {
            progress = refl;
            ordered = (
              omega (arith, c.fileoffset),
              fits_c,
              Ordered-mono blocksize e_end (front.fileoffset + front.bytecount) rest.entries
                  (omega (arith, c.fileoffset, c.bytecount)) g.ordered,
            );
            beyond = (
              omega (arith, c.fileoffset),
              fits_c,
              Ordered-mono blocksize e_end (front.fileoffset + front.bytecount) rest.entries
                  (omega (arith, c.fileoffset, c.bytecount)) g.ordered,
            );
            reads =
                ground (arith, g.reads, c.place, c.fileoffset, c.bytecount, c.partition, disjoint);
            sum = omega (arith, g.sum, less, c.bytecount);
            shrunk = omega (arith, g.shrunk, less);
            same = λ q. absurd (omega arith);
          })

    -- the new extent ends before the entry
    ahead :
        ext.fileoffset ≤ e.fileoffset
        → ext_end ≤ e.fileoffset
        → ext.fileoffset < e_end
        → Going blocksize positive small ext fits_ext x splits lo (e ∷ es) realsize round
    unfolding body total content insert_split
    ahead h k l =
        rw
          (
            trim-kept blocksize positive small ext e fits_ext fits rest.entries rest.realsize splits
                (inl k),
            body,
            place-going blocksize positive small ext e fits_ext fits rest.entries rest.realsize l,
          )
          (record {
            progress = refl;
            ordered = (from, fits, g.ordered);
            beyond = (k, fits, g.ordered);
            reads = ground (arith, g.reads);
            sum = omega (arith, g.sum);
            shrunk = g.shrunk;
            same = λ q. ap (◌∷◌ e) (g.same (omega arith));
          })

    -- the new extent begins at or behind the end of the entry
    past :
        (ext_end ≤ e.fileoffset) ⊎ ((e.fileoffset < ext.fileoffset) × (e_end ≤ ext.fileoffset))
        → e_end ≤ ext.fileoffset
        → Used blocksize positive small ext fits_ext x splits lo (e ∷ es) realsize round
    unfolding body total content insert_split
    past k l =
        let t =
          place-Took blocksize positive small ext e fits_ext fits rest.entries rest.realsize lo x l
            from g.beyond in
        rw
          (
            trim-kept blocksize positive small ext e fits_ext fits rest.entries rest.realsize splits
                k,
            body,
          )
          (record {
            progress = t.progress;
            ordered = t.ordered;
            behind = omega arith;
            reads = ground (arith, t.reads, g.reads);
            sum = omega (
              arith,
              t.sum,
              t.grown,
              g.sum,
              g.shrunk,
              add64_exact rest.realsize ext.bytecount (omega (arith, g.shrunk)),
            );
          })

    abbrev back : ExtentInfo
    back = cut_back ext.fileoffset e

    -- the entry up to the new extent, for an entry that reaches into it
    module _ (h : e.fileoffset < ext.fileoffset) (k : ext.fileoffset < e_end) where
      back_end : back.fileoffset + back.bytecount ≡ ext.fileoffset
      unfolding cut_back
      back_end =
          cut_back_lem blocksize positive small ext.fileoffset e (omega arith)
            (omega (arith, fits_ext.in_file))

      back_start :
          (back.fileoffset ≡ e.fileoffset)
          × (back.start ≡ e.start)
          × (back.byteoffset ≡ e.byteoffset)
      unfolding cut_back
      back_start = (refl, refl, refl)

      back-Fits : Fits blocksize back
      unfolding cut_back
      back-Fits = omega (arith, back_end, fits.in_file, fits.on_tape)

      -- the entry loses its end
      from_back :
          e_end ≤ ext_end
          → Used blocksize positive small ext fits_ext x splits lo (e ∷ es) realsize round
      unfolding body total content insert_split
      from_back l =
          let less =
            sub64_exact rest.realsize (e_end - ext.fileoffset) (omega (arith, g.sum))
              (omega (arith, g.shrunk)) in
          let r = sub64 rest.realsize (e_end - ext.fileoffset) in
          let t =
            place-Took blocksize positive small ext back fits_ext back-Fits rest.entries r lo x
              (omega (arith, back_end)) (omega (arith, back_start)) g.beyond in
          rw
            (
              trim-back blocksize positive small ext e fits_ext fits rest.entries rest.realsize
                  splits h k l,
              body,
            )
            (record {
              progress = t.progress;
              ordered = t.ordered;
              behind = omega arith;
              reads = ground (arith, t.reads, g.reads, back_end, back_start, disjoint);
              sum = omega (
                arith,
                t.sum,
                t.grown,
                g.sum,
                g.shrunk,
                less,
                back_end,
                back_start,
                add64_exact r ext.bytecount (omega (arith, g.shrunk, less)),
              );
            })

      abbrev last : ExtentInfo
      last = remainder blocksize positive small ext e fits_ext fits rest.entries rest.realsize

      -- the new extent lies within the entry: nothing behind has changed
      split :
          ext_end < e_end
          → splits ≡ true
          → Used blocksize positive small ext fits_ext x splits lo (e ∷ es) realsize round
      unfolding body total content insert_split
      split l s =
          let c =
            cut_front_lem blocksize positive small (ext_end - e.fileoffset) e fits (omega arith) in
          let fits_c : Fits blocksize last =
            omega (arith, c.place, c.bytecount, c.fileoffset, fits.in_file, fits.on_tape) in
          let unchanged = g.same (omega arith) in
          let less =
            sub64_exact rest.realsize ext.bytecount (omega (arith, g.sum))
              (omega (arith, g.shrunk)) in
          let r = sub64 rest.realsize ext.bytecount in
          let t =
            place-Took blocksize positive small ext back fits_ext back-Fits (last ∷ rest.entries) r
              lo x (omega (arith, back_end)) (omega (arith, back_start))
              (
                omega arith,
                fits_c,
                Ordered-mono blocksize e_end (ext_end + last.bytecount) rest.entries
                    (omega (arith, c.bytecount)) g.ordered,
              ) in
          rw
            (
              s,
              trim-split blocksize positive small ext e fits_ext fits rest.entries rest.realsize h
                  l,
              body,
            )
            (record {
              progress = t.progress;
              ordered = t.ordered;
              behind = omega arith;
              reads = ground (
                arith, t.reads, unchanged, back_end, back_start, disjoint, c.place, c.fileoffset,
                c.bytecount, c.partition,
              );
              sum = omega (
                arith,
                t.sum,
                t.grown,
                g.sum,
                g.shrunk,
                less,
                c.bytecount,
                back_end,
                back_start,
                add64_exact r ext.bytecount (omega (arith, g.shrunk, less)),
              );
            })

      refused :
          ext_end < e_end
          → splits ≡ false
          → Failed blocksize positive small ext fits_ext x splits (e ∷ es) round
      unfolding body
      refused l s =
          rw
            (
              s,
              trim-no_memory blocksize positive small ext e fits_ext fits rest.entries rest.realsize
                  h l,
              body,
            )
            (record { progress = refl; denied = refl; same = ap (◌∷◌ e) (g.same (omega arith)) })

    pub round-Outcome :
        Outcome blocksize positive small ext fits_ext x splits lo (e ∷ es) realsize round
    round-Outcome = elim (dec_le ext.fileoffset e.fileoffset) [
      | yes h ↦ elim (dec_lt e.fileoffset ext_end) [
        | yes k ↦ elim (dec_le e_end ext_end) [
          | yes l ↦ still (covered h k l)
          | no l ↦ still (from_front h k (omega arith))
        ]
        | no k ↦ elim (dec_lt ext.fileoffset e_end) [
          | yes l ↦ still (ahead h (omega arith) l)
          | no l ↦ done (past (inl (omega arith)) (omega arith))
        ]
      ]
      | no h ↦ elim (dec_lt ext.fileoffset e_end) [
        | yes k ↦ elim (dec_le e_end ext_end) [
          | yes l ↦ done (from_back (omega arith) k l)
          | no l ↦ elim (Bool-cases splits) [
            | inl s ↦ done (split (omega arith) k (omega arith) s)
            | inr s ↦ lost (refused (omega arith) k (omega arith) s)
          ]
        ]
        | no k ↦ done (past (inr (omega arith, omega arith)) (omega arith))
      ]
    ]
