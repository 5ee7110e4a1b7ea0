-- ===== src/Extent/Content.antt =====
-- What a list of extents says of a file: where each byte of the file stands on tape.
use ltfs.Prelude.{
  ℕ, ◌+◌, ◌-◌, ◌*◌, ◌^◌, ◌≤◌, ◌<◌, ◌≡◌, refl, Bool, ◌&&◌, Option, none, some, List, [], ◌∷◌, arith,
  ltb, leb, if◌then◌else◌,
}
use ltfs.Extent.{ExtentInfo}

-- whether the byte of the file at offset `x` stands in the extent
abbrev pub covers : ExtentInfo → ℕ → Bool
covers e x = leb e.fileoffset x && ltb x (e.fileoffset + e.bytecount)

module _ (blocksize : ℕ) where
  -- The place of the byte at file offset `x`: the partition, and the number of the block times
  -- the block size plus the offset in the block.
  abbrev pub address : ExtentInfo → ℕ → ℕ × ℕ
  address e x = (e.start.partition, e.start.block * blocksize + e.byteoffset + (x - e.fileoffset))

  -- the place on tape of the file's byte at `x`; none in a hole and past the last extent
  unfoldable pub content : List ExtentInfo → ℕ → Option (ℕ × ℕ)
  content [] x = none
  content (e ∷ es) x = if covers e x then some (address e x) else content es x

  -- the extent's range of the file, and of the tape in bytes, stay below 2^64
  pub record Fits (e : ExtentInfo) : Type 0 where
    pub in_file : e.fileoffset + e.bytecount < 2 ^ 64
    pub on_tape : e.start.block * blocksize + e.byteoffset + e.bytecount < 2 ^ 64

  -- extents in the order of the file that do not overlap, from the offset `lo` on
  abbrev pub Ordered : ℕ → List ExtentInfo → Type 0
  Ordered lo [] = Unit
  Ordered lo (e ∷ es) = (lo ≤ e.fileoffset) × Fits e × Ordered (e.fileoffset + e.bytecount) es

  pub Ordered-mono : (a b : ℕ) (es : List ExtentInfo) → b ≤ a → Ordered a es → Ordered b es
  Ordered-mono a b [] h o = tt
  Ordered-mono a b (e ∷ es) h o = (omega arith, o.1, o.2)

  -- below the first extent there is nothing
  pub content-below :
      (lo : ℕ) (es : List ExtentInfo) (x : ℕ) → Ordered lo es → x < lo → content es x ≡ none
  unfolding content
  content-below lo [] x o h = refl
  content-below lo (e ∷ es) x o h =
      ground (arith, content-below (e.fileoffset + e.bytecount) es x o.2)

-- the bytes that the extents hold
unfoldable pub total : List ExtentInfo → ℕ
total [] = 0
total (e ∷ es) = e.bytecount + total es
