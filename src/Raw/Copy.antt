-- ===== src/Raw/Copy.antt =====
-- The numbers of one round of the loop over the blocks of an extent, without the wrap-around.
use ltfs.Prelude.{
  ℕ, ◌+◌, ◌-◌, ◌*◌, ◌%◌, ◌^◌, ◌≤◌, ◌<◌, ◌≡◌, arith, ltb, if◌then◌else◌, add64, sub64, sub64_exact,
  add64_exact, min,
}
use ltfs.Extent.{ExtentInfo}
use ltfs.Extent.Content.{Fits}
use ltfs.Extent.Trim.{fileoffset_end_lem, block-le}
use ltfs.Raw.Device.{Tape}
use ltfs.Raw.{block_end, to_copy}

module _ (tape : Tape) (part_num : ℕ → ℕ) (blocksize : ℕ) (positive : 0 < blocksize)
    (small : blocksize ≤ 2 ^ 32) (count last_off : ℕ) (far : last_off < 2 ^ 63) (e : ExtentInfo)
    (fits : Fits blocksize e) where
  -- The file's byte at `next_off` is the one at `r` of block `t`, which begins at `first`; the
  -- difference wraps round if the block begins before the file does.
  pub record IsAt (t r first next_off : ℕ) : Type 0 where
    pub place :
        t * blocksize + r ≡ e.start.block * blocksize + e.byteoffset + (next_off - e.fileoffset)
    pub inside : r < blocksize
    pub from : e.fileoffset ≤ next_off
    pub first_byte : first ≡ (next_off + 2 ^ 64 - r) % 2 ^ 64

  -- what a round copies: `ncopy` bytes from `r` on, to the file offset `next`
  pub record IsCopy (t r first next_off n ncopy next : ℕ) : Type 0 where
    pub offset : sub64 next_off first ≡ r
    pub some : 1 ≤ ncopy
    pub within : r + ncopy ≤ n
    pub block : n ≤ blocksize
    pub moved : next ≡ next_off + ncopy
    pub to_end : next ≤ e.fileoffset + e.bytecount
    pub to_last : next ≤ last_off
    pub again :
        next < e.fileoffset + e.bytecount → next < last_off → r + (next - next_off) ≡ blocksize

  module _ (t r first next_off : ℕ) (at : IsAt t r first next_off)
      (inner : next_off < e.fileoffset + e.bytecount) (wanted : next_off < last_off) where
    abbrev last : ℕ
    last = block_end tape part_num blocksize count last_off e first

    abbrev ncopy : ℕ
    ncopy = to_copy tape part_num blocksize count last_off e last next_off

    -- where the block ends in the file
    abbrev full : ℕ
    full = next_off + blocksize - r

    full_lem : add64 first blocksize ≡ full
    unfolding add64
    full_lem = omega (arith, at.first_byte, at.inside)

    last_lem : last ≡ min (e.fileoffset + e.bytecount) full
    unfolding block_end
    last_lem = ground (arith, full_lem, fileoffset_end_lem blocksize positive small e fits)

    ncopy_lem : ncopy ≡ min last_off last - next_off
    unfolding to_copy
    ncopy_lem =
        let earlier : (if ltb last_off last then last_off else last) ≡ min last_off last =
          ground arith in
        rw earlier (sub64_exact _ _ (omega (arith, last_lem, at.inside)) (omega arith))

    block_lem : sub64 last first ≡ last + r - next_off
    unfolding sub64
    block_lem = omega (arith, at.first_byte, at.inside, last_lem, fits.in_file)

    offset_lem : sub64 next_off first ≡ r
    unfolding sub64
    offset_lem = omega (arith, at.first_byte, at.inside)

    pub round-IsCopy : IsCopy t r first next_off (sub64 last first) ncopy (add64 next_off ncopy)
    round-IsCopy =
        let exact : add64 next_off ncopy ≡ next_off + ncopy =
          add64_exact _ _ (omega (arith, ncopy_lem)) in
        record {
          offset = offset_lem;
          some = omega (arith, ncopy_lem, last_lem, at.inside);
          within = omega (arith, ncopy_lem, last_lem, block_lem, at.inside);
          block = omega (arith, last_lem, block_lem, at.inside);
          moved = exact;
          to_end = omega (arith, exact, ncopy_lem, last_lem);
          to_last = omega (arith, exact, ncopy_lem, last_lem);
          again = λ h k. omega (arith, exact, ncopy_lem, last_lem);
        }

    -- the next round, if there is one, begins with its block
    module _ (h : add64 next_off ncopy < e.fileoffset + e.bytecount)
        (k : add64 next_off ncopy < last_off) where
      exact : add64 next_off ncopy ≡ next_off + ncopy
      exact = round-IsCopy.moved

      next-full : add64 next_off ncopy ≡ full
      next-full = omega (arith, exact, ncopy_lem, last_lem, at.inside)

      pub next-IsAt : IsAt (t + 1) 0 (add64 first blocksize) (add64 next_off ncopy)
      next-IsAt = record {
        place = omega (arith, at.place, next-full, at.inside, at.from);
        inside = positive;
        from = omega (arith, next-full, at.inside, at.from);
        first_byte = omega (arith, next-full, full_lem);
      }

      pub last-first : last ≡ add64 first blocksize
      last-first = omega (arith, next-full, exact, ncopy_lem, last_lem, full_lem)

      pub next-block : t + 2 < 2 ^ 64
      next-block = omega (
        arith,
        next-IsAt.place,
        next-IsAt.from,
        block-le blocksize positive small (t + 1),
        fits.on_tape,
      )

    pub this-block : t + 1 < 2 ^ 64
    this-block = omega (arith, at.place, at.from, block-le blocksize positive small t, fits.on_tape)
