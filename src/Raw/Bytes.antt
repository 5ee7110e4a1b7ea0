-- ===== src/Raw/Bytes.antt =====
-- The bytes of a file: those that its extents place on tape, and zeros in the holes.
use native.Mathlib.Nat.{add-mul-div_right, add-mul-mod_self_right, div-eq_of_lt, mod-eq_of_lt}
use ltfs.Prelude.{
  ℕ, ◌+◌, ◌-◌, ◌*◌, ◌/◌, ◌%◌, ◌<◌, ◌≡◌, ◌∙◌, Option, none, some, List, get_or, arith,
}
use ltfs.Extent.{ExtentInfo}
use ltfs.Extent.Content.{content, address}

module _ (part_num : ℕ → ℕ) (blocksize : ℕ) (image : ℕ × ℕ → List ℕ) where
  -- the byte at a place on tape
  abbrev pub byte_at : ℕ × ℕ → ℕ
  byte_at a = get_or (image (part_num a.0, a.1 / blocksize)) (a.1 % blocksize) 0

  -- zero where there is no place
  abbrev pub byte_or_zero : Option (ℕ × ℕ) → ℕ
  byte_or_zero none = 0
  byte_or_zero (some a) = byte_at a

  abbrev pub file_byte : List ExtentInfo → ℕ → ℕ
  file_byte es x = byte_or_zero (content blocksize es x)

  -- the file's byte `b` is the one at `a` of block `t`
  pub byte_at-address :
      (e : ExtentInfo) (t a b : ℕ)
      → a < blocksize
      → t * blocksize + a ≡ e.start.block * blocksize + e.byteoffset + (b - e.fileoffset)
      → get_or (image (part_num e.start.partition, t)) a 0 ≡ byte_at (address blocksize e b)
  byte_at-address e t a b h k =
      let place : e.start.block * blocksize + e.byteoffset + (b - e.fileoffset)
          ≡ a + t * blocksize =
        omega (arith, k) in
      let block : (a + t * blocksize) / blocksize ≡ t =
        let positive : 0 < blocksize = omega (arith, h) in
        let split : (a + t * blocksize) / blocksize ≡ a / blocksize + t =
          add-mul-div_right a t positive in
        omega (arith, split, div-eq_of_lt h) in
      let offset : (a + t * blocksize) % blocksize ≡ a =
        add-mul-mod_self_right a t blocksize ∙ mod-eq_of_lt h in
      rw (place, block, offset)
