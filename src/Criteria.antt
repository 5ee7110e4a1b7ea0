-- ===== src/Criteria.antt =====
-- libltfs/index_criteria.c: the rules for the files that go to the index partition, as text and as
-- a match of a file against them.
pub mod Rules
pub mod Glob
pub mod Match
pub mod Options
pub mod Sizes
pub mod Names
pub mod Texts
pub mod Parse
pub mod Returns
mod Tests
mod MatchTests
use ltfs.Prelude.{
  ℕ, zero, suc, ◌+◌, ◌-◌, ◌*◌, ◌%◌, ◌^◌, Bool, true, false, not, ◌&&◌, ◌||◌, Option, none, some,
  List, [], ◌∷◌, ◌++◌, codes, length, drop, leb, ltb, ◌==◌, if◌then◌else◌, min,
}

-- <ctype.h> in the C locale
unfoldable pub to_lower : ℕ → ℕ
to_lower c = if leb b'A' c && leb c b'Z' then c + 32 else c

unfoldable pub is_alpha : ℕ → Bool
is_alpha c = (leb b'A' c && leb c b'Z') || (leb b'a' c && leb c b'z')

unfoldable pub is_digit : ℕ → Bool
is_digit c = leb b'0' c && leb c b'9'

-- whether a text starts with an option: `strncasecmp` with the length of the option
unfoldable pub starts : List ℕ → List ℕ → Bool
unfolding to_lower
starts [] s = true
starts (o ∷ option) [] = false
starts (o ∷ option) (c ∷ s) = to_lower o == to_lower c && starts option s

abbrev pub name_option : List ℕ
name_option = codes "name="

abbrev pub size_option : List ℕ
size_option = codes "size="

unfoldable pub is_option : List ℕ → Bool
is_option s = starts name_option s || starts size_option s

-- "Check which options come after each separator"
unfoldable pub separators_valid : List ℕ → Bool
unfolding is_option
separators_valid [] = true
separators_valid (c ∷ s) = (not (c == b'/') || is_option s) && separators_valid s

-- `index_criteria_contains_invalid_options`
unfoldable pub contains_invalid_options : List ℕ → Bool
contains_invalid_options s =
    if ltb (length s) 5
    then true
    else if is_option s
    then not (separators_valid (drop 1 s))
    else true

-- the first match behind a separator; `previous` is the character in front of the text
unfoldable pub walk : List ℕ → ℕ → List ℕ → Option (List ℕ)
walk option previous [] = none
walk option previous (c ∷ s) =
    if previous == b'/' && starts option (c ∷ s) then some (c ∷ s) else walk option c s

-- the start of the match
unfoldable pub option_start : List ℕ → List ℕ → Option (List ℕ)
unfolding walk
option_start option [] = none
option_start option (c ∷ s) = if starts option (c ∷ s) then some (c ∷ s) else walk option c s

-- a text up to the first separator, and from it on
unfoldable pub before_separator : List ℕ → List ℕ
before_separator [] = []
before_separator (c ∷ s) = if c == b'/' then [] else c ∷ before_separator s

unfoldable pub from_separator : List ℕ → List ℕ
from_separator [] = []
from_separator (c ∷ s) = if c == b'/' then c ∷ s else from_separator s

-- What `index_criteria_find_option` returns: true with the text from `start` to `end`, or false;
-- and whether it has set the error flag.
pub data Search : Type 0 where
  found : List ℕ → Search
  absent : Search
  repeated : Search
  out_of_fuel : Search

-- what a call makes of the match that its own call behind it has found
unfoldable pub unless_repeated : List ℕ → Search → Search
unless_repeated option (found s) = repeated
unless_repeated option absent = found option
unless_repeated option repeated = found option
unless_repeated option out_of_fuel = out_of_fuel

-- `index_criteria_find_option`, on fuel
unfoldable pub find_option : ℕ → List ℕ → List ℕ → Search
find_option zero option s = out_of_fuel
find_option (suc fuel) option s = elim (ltb (length s) 5) [
  | true ↦ absent
  | false ↦ elim (option_start option s) [
    | none ↦ absent
    | some start ↦
        unless_repeated (before_separator start) (find_option fuel option (from_separator start))
  ]
]
