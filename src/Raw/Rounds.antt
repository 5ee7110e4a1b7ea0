-- ===== src/Raw/Rounds.antt =====
-- The loop over the blocks of an extent.
use native.Mathlib.Nat.{sub_self}
use native.Mathlib.Decide.{dec_lt}
use ltfs.Prelude.{
  ℕ, zero, suc, ◌+◌, ◌-◌, ◌^◌, ◌≤◌, ◌<◌, ◌≡◌, refl, true, false, ◌&&◌, List, take, drop, arith, ltb,
  add64, sub64, min, add64_exact,
}
use ltfs.Extent.{ExtentInfo, fileoffset_end}
use ltfs.Extent.Content.{Fits, address}
use ltfs.Extent.Trim.{fileoffset_end_lem}
use ltfs.Raw.Device.{Tape}
use ltfs.Raw.{
  Volume, Result, Progress, ok, failed, out_of_fuel, prepend, block_end, to_copy, blocks,
  read_block,
}
use ltfs.Raw.Window.{window, window-add, take-drop-window}
use ltfs.Raw.Block.{Holds, Sound, Ready, Got, Sound-bind, read_block-Got}
use ltfs.Raw.Copy.{IsAt, IsCopy, round-IsCopy, next-IsAt, last-first, next-block, this-block}
use ltfs.Raw.Bytes.{byte_at, byte_at-address}

module _ (tape : Tape) (part_num : ℕ → ℕ) (blocksize : ℕ) (positive : 0 < blocksize)
    (small : blocksize ≤ 2 ^ 32) (image : ℕ × ℕ → List ℕ) (count last_off : ℕ)
    (far : last_off < 2 ^ 63) (short : count < 2 ^ 63) where
  -- What a part of the call has read from `next_off` on, up to `stop`: the bytes that `f` gives.
  pub record Done (f : ℕ → ℕ) (stop next_off : ℕ) (p : Progress tape part_num blocksize)
      (vol : Volume tape part_num blocksize) : Type 0 where
    pub holds : Holds tape part_num blocksize image vol
    pub bytes : p.bytes ≡ window f next_off (p.next_off - next_off)
    pub counted : p.read_count + last_off ≡ count + p.next_off
    pub stopped : p.next_off ≡ stop

  -- the property of a part that goes on from `next_off`
  abbrev pub Reads :
      (ℕ → ℕ) → ℕ → ℕ → Result tape part_num blocksize (Progress tape part_num blocksize) → Type 0
  Reads f stop next_off r = Sound tape part_num blocksize image (Done f stop next_off) r

  pub prepend-Reads :
      (f : ℕ → ℕ) (stop x y m : ℕ) (bs : List ℕ)
      (r : Result tape part_num blocksize (Progress tape part_num blocksize))
      → bs ≡ window f x m
      → y ≡ x + m
      → y ≤ stop
      → Reads f stop y r
      → Reads f stop x (prepend tape part_num blocksize bs r)
  unfolding prepend
  prepend-Reads f stop x y m bs (ok p vol) b h k d = record {
    holds = d.holds;
    bytes =
        rw (b, d.bytes)
          (window-add f x m y (p.next_off - y) (p.next_off - x) h (omega (arith, h, k, d.stopped)));
    counted = d.counted;
    stopped = d.stopped;
  }
  prepend-Reads f stop x y m bs (failed code vol) b h k d = d
  prepend-Reads f stop x y m bs out_of_fuel b h k d = d

  module _ (e : ExtentInfo) (fits : Fits blocksize e) where
    abbrev pub stop : ℕ
    stop = min (e.fileoffset + e.bytecount) last_off

    abbrev pub tape_byte : ℕ → ℕ
    tape_byte x = byte_at part_num blocksize image (address blocksize e x)

    -- the head of the loop, if a round follows
    pub record Head (t r first last next_off : ℕ) (cur : ℕ × ℕ)
        (vol : Volume tape part_num blocksize) : Type 0 where
      pub at :
          IsAt tape part_num blocksize positive small count last_off far e fits t r first next_off
      pub same : last ≡ first
      pub ready : Ready tape part_num blocksize image e t cur vol

    module _ (t r first last next_off read_count : ℕ) (cur : ℕ × ℕ)
        (vol : Volume tape part_num blocksize) (h : Holds tape part_num blocksize image vol)
        (hd : Head t r first last next_off cur vol) (n : next_off < stop)
        (c : read_count + last_off ≡ count + next_off) where
      abbrev end : ℕ
      end = block_end tape part_num blocksize count last_off e first

      abbrev ncopy : ℕ
      ncopy = to_copy tape part_num blocksize count last_off e end next_off

      abbrev next : ℕ
      next = add64 next_off ncopy

      copy :
          IsCopy tape part_num blocksize positive small count last_off far e fits t r first next_off
            (sub64 end first)
            ncopy
            next
      copy =
          round-IsCopy tape part_num blocksize positive small count last_off far e fits t r first
            next_off hd.at (omega arith) (omega arith)

      copied :
          (cur' : ℕ × ℕ) (v : Volume tape part_num blocksize)
          → Got tape part_num blocksize image e t cur vol h (sub64 end first) cur' v
          → take ncopy (drop (sub64 next_off first) v.last_block) ≡ window tape_byte next_off ncopy
      copied cur' v g = rw copy.offset (
          take-drop-window tape_byte v.last_block r next_off ncopy
            (omega (arith, copy.within, g.enough))
            (λ a b k l m. rw g.wanted (
              byte_at-address part_num blocksize image e t a b
                (omega (arith, copy.within, copy.block)) (omega (arith, hd.at.place, hd.at.from)))))

      next-Head :
          (cur' : ℕ × ℕ) (v : Volume tape part_num blocksize)
          → Got tape part_num blocksize image e t cur vol h (sub64 end first) cur' v
          → next < stop
          → Head (t + 1) 0 (add64 first blocksize) end next cur' v
      next-Head cur' v g k = record {
        at =
            next-IsAt tape part_num blocksize positive small count last_off far e fits t r first
              next_off hd.at (omega arith) (omega arith) (omega arith) (omega arith);
        same =
            last-first tape part_num blocksize positive small count last_off far e fits t r first
              next_off hd.at (omega arith) (omega arith) (omega arith) (omega arith);
        ready = g.next (
            next-block tape part_num blocksize positive small count last_off far e fits t r first
              next_off hd.at (omega arith) (omega arith) (omega arith) (omega arith));
      }

      block_exact : add64 t 1 ≡ t + 1
      block_exact = add64_exact t 1 (
          this-block tape part_num blocksize positive small count last_off far e fits t r first
            next_off hd.at (omega arith) (omega arith))

      count_exact : add64 read_count ncopy ≡ read_count + ncopy
      count_exact = add64_exact read_count ncopy (omega (arith, copy.to_last, copy.moved))

    pub blocks-Reads :
        (fuel t r : ℕ) (cur : ℕ × ℕ) (first last next_off read_count : ℕ)
        (vol : Volume tape part_num blocksize)
        → Holds tape part_num blocksize image vol
        → next_off ≤ stop
        → read_count + last_off ≡ count + next_off
        → count < read_count + fuel
        → (next_off < stop → Head t r first last next_off cur vol)
        → Reads tape_byte stop next_off (
            blocks tape part_num blocksize count last_off e fuel
              (part_num e.start.partition, t)
              cur
              first
              last
              next_off
              read_count
              vol)
    unfolding blocks
    blocks-Reads zero t r cur first last next_off read_count vol h n c f head = absurd (omega arith)
    blocks-Reads (suc fuel) t r cur first last next_off read_count vol h n c f head =
        elim (dec_lt next_off stop) [
          | no k ↦
              let test : (ltb next_off (fileoffset_end e) && ltb read_count count) ≡ false =
                ground (arith, fileoffset_end_lem blocksize positive small e fits) in
              rw (test, blocks)
                (record {
                  holds = h;
                  bytes = rw (sub_self next_off) refl;
                  counted = c;
                  stopped = omega arith;
                })
          | yes k ↦
              let test : (ltb next_off (fileoffset_end e) && ltb read_count count) ≡ true =
                ground (arith, fileoffset_end_lem blocksize positive small e fits) in
              let hd = head k in
              let cp = copy t r first last next_off read_count cur vol h hd k c in
              let exact = count_exact t r first last next_off read_count cur vol h hd k c in
              rw
                (
                  test,
                  hd.same,
                  block_exact t r first last next_off read_count cur vol h hd k c,
                  blocks,
                )
                (Sound-bind tape part_num blocksize image
                  (Got tape part_num blocksize image e t cur vol h _) (Done tape_byte stop next_off)
                  (read_block tape part_num blocksize e (part_num e.start.partition, t) cur _ vol) _
                  (read_block-Got tape part_num blocksize image e t cur vol h hd.ready _ cp.block)
                  (λ cur' v g.
                    prepend-Reads tape_byte stop next_off _ _ _ _
                      (copied t r first last next_off read_count cur vol h hd k c cur' v g) cp.moved
                      (omega (arith, cp.to_end, cp.to_last))
                      (blocks-Reads fuel (t + 1) 0 cur' _ _ _ _ v g.holds
                        (omega (arith, cp.to_end, cp.to_last)) (omega (arith, cp.moved, exact))
                        (omega (arith, cp.some, exact))
                        (next-Head t r first last next_off read_count cur vol h hd k c cur' v g))))
        ]
