-- ===== src/Extent/Trim.antt =====
-- The parts of the loop body without the wrap-around, for extents that fit.
use native.Mathlib.Nat.{div-add-mod, mod-lt}
use ltfs.Prelude.{
  ℕ, ◌+◌, ◌*◌, ◌/◌, ◌%◌, ◌^◌, ◌≤◌, ◌<◌, ◌≡◌, refl, ◌∙◌, true, arith, add64, add64_exact,
  sub64_exact,
}
use ltfs.Extent.{ExtentInfo, fileoffset_end, byteoffset_end, cut_front, cut_back, continues}
use ltfs.Extent.Content.{Fits}

module _ (blocksize : ℕ) (positive : 0 < blocksize) (small : blocksize ≤ 2 ^ 32) where
  pub block-le : (b : ℕ) → b ≤ b * blocksize
  block-le b = grind arith

  pub div-le : (n : ℕ) → n / blocksize ≤ n
  div-le n = grind arith

  pub fileoffset_end_lem :
      (e : ExtentInfo) → Fits blocksize e → fileoffset_end e ≡ e.fileoffset + e.bytecount
  fileoffset_end_lem e f = add64_exact _ _ f.in_file

  pub byteoffset_end_lem :
      (e : ExtentInfo) → Fits blocksize e → byteoffset_end e ≡ e.byteoffset + e.bytecount
  byteoffset_end_lem e f = add64_exact _ _ (omega (arith, f.on_tape))

  pub record IsFront (diff : ℕ) (e c : ExtentInfo) : Type 0 where
    pub partition : c.start.partition ≡ e.start.partition
    pub fileoffset : c.fileoffset ≡ e.fileoffset + diff
    pub bytecount : c.bytecount + diff ≡ e.bytecount
    pub place :
        c.start.block * blocksize + c.byteoffset ≡ e.start.block * blocksize + e.byteoffset + diff

  -- the cut extent begins `diff` bytes later in the file and on tape
  skip_lem :
      (block s : ℕ)
      → block * blocksize + s < 2 ^ 64
      → add64 block (s / blocksize) * blocksize + s % blocksize % 2 ^ 32 ≡ block * blocksize + s
  skip_lem block s h =
      let split = div-add-mod s blocksize in
      let rest = mod-lt s positive in
      let exact : add64 block (s / blocksize) ≡ block + s / blocksize =
        add64_exact _ _ (omega (arith, block-le block, div-le s)) in
      rw exact (omega arith)

  -- the cut extent begins `diff` bytes later in the file and on tape
  pub cut_front_lem :
      (diff : ℕ) (e : ExtentInfo)
      → Fits blocksize e
      → diff ≤ e.bytecount
      → IsFront diff e (cut_front blocksize diff e)
  unfolding cut_front
  cut_front_lem diff e f h =
      let skip : add64 diff e.byteoffset ≡ diff + e.byteoffset =
        add64_exact _ _ (omega (arith, f.on_tape)) in
      record {
        partition = refl;
        fileoffset = add64_exact _ _ (omega (arith, f.in_file));
        bytecount =
            omega (arith, f.in_file, sub64_exact e.bytecount diff h (omega (arith, f.in_file)));
        place = rw skip (
            omega (arith, skip_lem e.start.block (diff + e.byteoffset) (omega (arith, f.on_tape))));
      }

  pub cut_back_lem :
      (stop : ℕ) (e : ExtentInfo)
      → e.fileoffset ≤ stop
      → stop < 2 ^ 64
      → e.fileoffset + (cut_back stop e).bytecount ≡ stop
  unfolding cut_back
  cut_back_lem stop e h k = omega (arith, sub64_exact stop e.fileoffset h k)

  pub record IsNext (ext e : ExtentInfo) : Type 0 where
    pub in_file : ext.fileoffset ≡ e.fileoffset + e.bytecount
    pub partition : e.start.partition ≡ ext.start.partition
    pub on_tape :
        ext.start.block * blocksize + ext.byteoffset
        ≡ e.start.block * blocksize + e.byteoffset + e.bytecount

  next_block :
      (b c n : ℕ)
      → b * blocksize + n < 2 ^ 64
      → n % blocksize ≡ 0
      → add64 b (n / blocksize) ≡ c
      → c * blocksize ≡ b * blocksize + n
  next_block b c n h z e =
      let split = div-add-mod n blocksize in
      let exact = add64_exact b (n / blocksize) (omega (arith, block-le b, div-le n)) in
      let c' : c ≡ b + n / blocksize = omega arith in rw c' (omega arith)

  -- an extent that continues another starts where that one ends, in the file and on tape
  pub continues-IsNext :
      (ext e : ExtentInfo) → Fits blocksize e → continues blocksize ext e ≡ true → IsNext ext e
  unfolding continues
  continues-IsNext ext e f h =
      let fe = fileoffset_end_lem e f in
      let be = byteoffset_end_lem e f in
      let facts : (ext.fileoffset ≡ fileoffset_end e)
          × (e.start.partition ≡ ext.start.partition)
          × (byteoffset_end e % blocksize ≡ 0)
          × (add64 e.start.block (byteoffset_end e / blocksize) ≡ ext.start.block)
          × (ext.byteoffset ≡ 0) =
        ground arith in
      record {
        in_file = facts.0 ∙ fe;
        partition = facts.1;
        on_tape = omega (
          arith,
          facts.4,
          next_block e.start.block ext.start.block (e.byteoffset + e.bytecount)
              (omega (arith, f.on_tape)) (rw be at (facts.2)) (rw be at (facts.3)),
        );
      }
