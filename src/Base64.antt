-- ===== src/Base64.antt =====
-- libltfs/base64.c: the decoder of base 64 text.
pub mod Encode
pub mod RoundTrip
mod Tests
use ltfs.Prelude.{
  ℕ, ◌+◌, ◌-◌, ◌*◌, ◌/◌, ◌%◌, Bool, true, false, ◌&&◌, ◌||◌, Option, none, some, List, [], ◌∷◌,
  ◌++◌, length, codes, ◌==◌, if◌then◌else◌,
}

-- `base64_enc`
abbrev pub base64_enc : List ℕ
base64_enc = codes "ABCDEFGHIJKLMNOPQRSTUVWXYZabcdefghijklmnopqrstuvwxyz0123456789+/"

-- `UCHAR_MAX` in the decode map: no character of base 64
abbrev pub invalid : ℕ
invalid = 255

pub index_from : ℕ → List ℕ → ℕ → ℕ
index_from i [] c = invalid
index_from i (x ∷ xs) c = let rest = index_from (i + 1) xs c in if x == c then i else rest

-- the decode map `base64_dec`
unfoldable pub base64_dec : ℕ → ℕ
unfolding index_from
base64_dec c = index_from 0 base64_enc c

unfoldable pub is_white : ℕ → Bool
is_white c = c == b'\r' || c == b'\n' || c == b' ' || c == b'\t'

-- `i == nbytes_in - 2` with two signs '=', and `i == nbytes_in - 1`; `rest` is what follows
pub last_pair : ℕ → List ℕ → Bool
last_pair c [] = false
last_pair c (d ∷ []) = c == b'=' && d == b'='
last_pair c (d ∷ _ ∷ _) = false

pub at_end : List ℕ → Bool
at_end [] = true
at_end (_ ∷ _) = false

-- one round of the loop "check for out-of-place '=' and invalid characters": the new `nequal` and
-- `nbytes_real`, or the early return. `before` is the byte in front of `c`.
unfoldable pub check_byte : ℕ → ℕ → List ℕ → ℕ → ℕ → Option (ℕ × ℕ)
unfolding last_pair at_end is_white
check_byte before c rest nequal nbytes_real =
    if last_pair c rest
    then some (2, nbytes_real)
    else if at_end rest && c == b'='
    then some (if before == b'=' then nequal else 1, nbytes_real)
    else if is_white c
    then some (nequal, nbytes_real - 1)
    else if base64_dec c == invalid
    then none
    else some (nequal, nbytes_real)

pub check : ℕ → List ℕ → ℕ → ℕ → Option (ℕ × ℕ)
unfolding check_byte
check before [] nequal nbytes_real = some (nequal, nbytes_real)
check before (c ∷ rest) nequal nbytes_real = elim (check_byte before c rest nequal nbytes_real) [
  | none ↦ none
  | some (n, r) ↦ check c rest n r
]

-- `cur_quad` with its first `quad_count` places
pub data Quad : Type 0 where
  quad_0 : Quad
  quad_1 : ℕ → Quad
  quad_2 : ℕ → ℕ → Quad
  quad_3 : ℕ → ℕ → ℕ → Quad

-- The bytes of a full quad. The operands of each `|` have no bit in common, so `|` is `+`.
pub emit : ℕ → ℕ → ℕ → ℕ → List ℕ
emit a b c d =
    (a * 4 % 256 + b / 16 % 4)
    ∷ (if c == invalid
        then []
        else (b % 16 * 16 + c / 4 % 16) ∷ (if d == invalid then [] else (c % 4 * 64 + d) ∷ []))

-- one value into the quad: the new quad, and the bytes of a quad that is full
pub put : Quad → ℕ → Quad × List ℕ
put quad_0 v = (quad_1 v, [])
put (quad_1 a) v = (quad_2 a v, [])
put (quad_2 a b) v = (quad_3 a b v, [])
put (quad_3 a b c) v = (quad_0, emit a b c v)

-- the loop "generate output"
pub generate : Quad → List ℕ → List ℕ
unfolding put is_white
generate q [] = []
generate q (c ∷ rest) = elim (is_white c) [
  | true ↦ generate q rest
  | false ↦ (put q (base64_dec c)).1 ++ generate (put q (base64_dec c)).0 rest
]

-- What `base64_decode` returns: 0 after an error, or `nout` with the bytes of the output buffer.
pub data Decoded : Type 0 where
  failed : Decoded
  decoded : ℕ → List ℕ → Decoded

-- what follows the check; `allocates` says whether `malloc` succeeds
pub output : Bool → List ℕ → Option (ℕ × ℕ) → Decoded
unfolding generate
output allocates enc none = failed
output allocates enc (some (nequal, nbytes_real)) =
    if nbytes_real % 4 == 0
    then (if allocates
        then decoded (3 * (nbytes_real / 4) - nequal) (generate quad_0 enc)
        else failed)
    else failed

-- `before` is the byte in front of the text: for a text of one '=' the code reads `enc[-1]`
unfoldable pub base64_decode : ℕ → Bool → List ℕ → Decoded
unfolding check output
base64_decode before allocates enc =
    if length enc == 0 then failed else output allocates enc (check before enc 0 (length enc))
