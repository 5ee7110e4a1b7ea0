-- ===== src/Raw/Start.antt =====
-- Reading from one extent: where it starts, and the loop over the blocks from there.
use native.Mathlib.Nat.{div-add-mod, mod-lt, sub_self}
use native.Mathlib.Decide.{dec_lt}
use ltfs.Prelude.{
  ℕ, suc, ◌+◌, ◌-◌, ◌*◌, ◌/◌, ◌%◌, ◌^◌, ◌≤◌, ◌<◌, ◌≡◌, refl, true, false, List, arith, ltb, add64,
  sub64, min, max, add64_exact, sub64_exact, ◌∙◌,
}
use ltfs.Extent.{ExtentInfo, fileoffset_end}
use ltfs.Extent.Content.{Fits}
use ltfs.Extent.Trim.{fileoffset_end_lem, block-le, div-le}
use ltfs.Raw.Device.{Tape, Status, good, bad}
use ltfs.Raw.{Volume, mul64, target_block, read_extent, located, from_extent, seek_if_required}
use ltfs.Raw.Block.{Fault, position_failed, Holds, Ready, Sound-bind, seek-Ready}
use ltfs.Raw.Copy.{IsAt}
use ltfs.Raw.Rounds.{Reads, tape_byte, blocks-Reads}

module _ (tape : Tape) (part_num : ℕ → ℕ) (blocksize : ℕ) (positive : 0 < blocksize)
    (small : blocksize ≤ 2 ^ 32) (image : ℕ × ℕ → List ℕ) (count last_off : ℕ)
    (far : last_off < 2 ^ 63) (short : count < 2 ^ 63) (e : ExtentInfo)
    (fits : Fits blocksize e) where
  module _ (next_off : ℕ) (from : e.fileoffset ≤ next_off)
      (inner : next_off < e.fileoffset + e.bytecount) where
    -- the bytes of the extent's blocks in front of `next_off`
    abbrev skipped : ℕ
    skipped = next_off - e.fileoffset + e.byteoffset

    abbrev target : ℕ
    target = target_block tape part_num blocksize count last_off e next_off

    skipped_lem : add64 (sub64 next_off e.fileoffset) e.byteoffset ≡ skipped
    unfolding add64 sub64
    skipped_lem = omega (arith, fits.in_file, fits.on_tape)

    target_lem : target ≡ e.start.block + skipped / blocksize
    unfolding target_block
    target_lem = rw skipped_lem (
        add64_exact _ _ (
          omega (
            arith,
            fits.on_tape,
            block-le blocksize positive small e.start.block,
            div-le blocksize positive small skipped,
          )))

    abbrev first : ℕ
    first = add64 (sub64 e.fileoffset e.byteoffset) (mul64 (sub64 target e.start.block) blocksize)

    before_lem : mul64 (sub64 target e.start.block) blocksize ≡ skipped / blocksize * blocksize
    unfolding mul64
    before_lem =
        let blocks_before : sub64 target e.start.block ≡ skipped / blocksize =
          sub64_exact _ _ (omega (arith, target_lem)) (
            omega (
              arith,
              target_lem,
              fits.on_tape,
              block-le blocksize positive small e.start.block,
              div-le blocksize positive small skipped,
            ))
          ∙ omega (arith, target_lem) in
        rw blocks_before (omega (arith, div-add-mod skipped blocksize, fits.on_tape))

    first_lem : first ≡ (next_off + 2 ^ 64 - skipped % blocksize) % 2 ^ 64
    unfolding add64 sub64
    first_lem =
        rw before_lem
          (omega (arith, div-add-mod skipped blocksize, mod-lt skipped positive, fits.on_tape))

    start-IsAt :
        IsAt tape part_num blocksize positive small count last_off far e fits target
          (skipped % blocksize)
          first
          next_off
    start-IsAt = record {
      place = rw target_lem (omega (arith, div-add-mod skipped blocksize));
      inside = mod-lt skipped positive;
      from = from;
      first_byte = first_lem;
    }

    read_extent-Reads :
        (cur : ℕ × ℕ) (read_count : ℕ) (vol : Volume tape part_num blocksize)
        → Holds tape part_num blocksize image vol
        → cur ≡ tape.position vol.device
        → next_off ≤ last_off
        → read_count + last_off ≡ count + next_off
        → Reads tape part_num blocksize positive small image count last_off far short
            (tape_byte tape part_num blocksize positive small image count last_off far short e fits)
            (min (e.fileoffset + e.bytecount) last_off)
            next_off
            (read_extent tape part_num blocksize count last_off e cur next_off read_count vol)
    unfolding read_extent
    read_extent-Reads cur read_count vol h p k c =
        Sound-bind tape part_num blocksize image
          (λ _ v.
            Holds tape part_num blocksize image v
            × Ready tape part_num blocksize image e target cur v)
          _
          (seek_if_required tape part_num blocksize e (part_num e.start.partition, target) cur vol)
          _
          (seek-Ready tape part_num blocksize image e target cur vol h p (
            omega
              (arith, start-IsAt.place, block-le blocksize positive small target, fits.on_tape)))
          (λ _ v s.
            blocks-Reads tape part_num blocksize positive small image count last_off far short e
              fits (suc count) target (skipped % blocksize) cur first first next_off read_count v
              s.0 (omega arith) c (omega arith)
              (λ _. record { at = start-IsAt; same = refl; ready = s.1 }))

  -- where a read that is at `next_off` behind the extent's start stands after the extent
  abbrev pub behind : ℕ → ℕ
  behind next_off = max next_off (min (e.fileoffset + e.bytecount) last_off)

  abbrev pub extent_byte : ℕ → ℕ
  extent_byte =
      tape_byte tape part_num blocksize positive small image count last_off far short e fits

  module _ (next_off read_count : ℕ) (vol : Volume tape part_num blocksize)
      (h : Holds tape part_num blocksize image vol) (from : e.fileoffset ≤ next_off)
      (k : next_off ≤ last_off) (c : read_count + last_off ≡ count + next_off) where
    located-Reads :
        (r : Status × (ℕ × ℕ))
        → (r.0 ≡ good → r.1 ≡ tape.position vol.device)
        → ((code : ℕ) → r.0 ≡ bad code → Fault tape part_num blocksize image code)
        → next_off < e.fileoffset + e.bytecount
        → Reads tape part_num blocksize positive small image count last_off far short extent_byte
            (behind next_off)
            next_off
            (located tape part_num blocksize count last_off e next_off read_count vol r)
    unfolding located
    located-Reads (bad code, cur) law fault inner = fault code refl
    located-Reads (good, cur) law fault inner =
        let same : behind next_off ≡ min (e.fileoffset + e.bytecount) last_off = omega arith in
        rw same (read_extent-Reads next_off from inner cur read_count vol h (law refl) k c)

    pub from_extent-Reads :
        Reads tape part_num blocksize positive small image count last_off far short extent_byte
          (behind next_off)
          next_off
          (from_extent tape part_num blocksize count last_off e next_off read_count vol)
    unfolding from_extent
    from_extent-Reads = elim (dec_lt next_off (e.fileoffset + e.bytecount)) [
      | yes inner ↦
          let test : ltb next_off (fileoffset_end e) ≡ true =
            ground (arith, fileoffset_end_lem blocksize positive small e fits) in
          rw test (
            located-Reads (tape.get_position vol.device) (tape.get_position_lem vol.device)
              (λ code b. position_failed vol.device b) inner)
      | no outer ↦
          let test : ltb next_off (fileoffset_end e) ≡ false =
            ground (arith, fileoffset_end_lem blocksize positive small e fits) in
          rw test (record {
            holds = h;
            bytes = rw (sub_self next_off) refl;
            counted = c;
            stopped = omega arith;
          })
    ]
