-- ===== src/Criteria/Rules.antt =====
-- libltfs/index_criteria.c: the size rule, the name rule and the whole text of the rules, with the
-- structure that they fill. A call answers 0 or the number of its error without the sign.
use ltfs.Prelude.{
  ℕ, zero, suc, ◌+◌, ◌-◌, ◌*◌, ◌%◌, ◌^◌, Bool, true, false, ◌&&◌, ◌||◌, Option, none, some, List,
  [], ◌∷◌, ◌++◌, length, drop, ◌==◌, if◌then◌else◌, min,
}
use ltfs.Raw.{no_memory}
use ltfs.Criteria.{
  is_alpha, is_digit, name_option, size_option, contains_invalid_options, Search, found, absent,
  repeated, out_of_fuel, find_option,
}

-- ltfs_error.h
abbrev pub policy_empty_rule : ℕ
policy_empty_rule = 1020

abbrev pub policy_invalid : ℕ
policy_invalid = 1058

-- `struct index_criteria`; the array of patterns is a list, or NULL. The cache of the patterns in
-- comparable form is an argument of the match, in Criteria.Match.
pub record Criteria : Type 0 where
  pub have_criteria : Bool
  pub max_filesize_criteria : ℕ
  pub glob_patterns : Option (List (List ℕ))

-- `index_criteria_free`
unfoldable pub free_criteria : Criteria → Criteria
free_criteria ic =
    if ic.have_criteria
    then record { have_criteria = false; max_filesize_criteria = 0; glob_patterns = none }
    else ic

-- whether two letters follow each other
unfoldable pub adjacent : List ℕ → Bool
adjacent [] = false
adjacent (c ∷ []) = false
adjacent (c ∷ d ∷ s) = (is_alpha c && is_alpha d) || adjacent (d ∷ s)

-- the last character of a text; of an empty one, the byte in front of the buffer
unfoldable pub last_char : ℕ → List ℕ → ℕ
last_char before [] = before
last_char before (c ∷ s) = last_char c s

unfoldable pub drop_last : List ℕ → List ℕ
drop_last [] = []
drop_last (c ∷ []) = []
drop_last (c ∷ d ∷ s) = c ∷ drop_last (d ∷ s)

unfoldable pub multiplier : ℕ → Option ℕ
multiplier c =
    if c == b'k' || c == b'K'
    then some 1024
    else if c == b'm' || c == b'M'
    then some (1024 * 1024)
    else if c == b'g' || c == b'G'
    then some (1024 * 1024 * 1024)
    else none

-- `strtoull` in base 10 of a text that starts with a digit: its leading digits, at most the
-- greatest number of 64 bits
unfoldable pub decimal : ℕ → List ℕ → ℕ
decimal n [] = n
decimal n (c ∷ s) = if is_digit c then decimal (n * 10 + (c - b'0')) s else n

unfoldable pub strtoull : List ℕ → ℕ
strtoull s = min (decimal 0 s) (2 ^ 64 - 1)

-- the end of `index_criteria_parse_size`
unfoldable pub number : ℕ → List ℕ → Option ℕ
number factor [] = none
number factor (c ∷ s) = if is_digit c then some (strtoull (c ∷ s) * factor % 2 ^ 64) else none

-- `index_criteria_parse_size` on the text of the option; none is -LTFS_POLICY_INVALID
unfoldable pub parse_size : ℕ → List ℕ → Option ℕ
parse_size before criteria =
    let rule = drop (length size_option) criteria in
    if adjacent rule
    then none
    else if is_alpha (last_char before rule)
    then (elim (multiplier (last_char before rule)) [
      | none ↦ none
      | some factor ↦ number factor (drop_last rule)
    ])
    else number 1 rule

-- "Count the rules and check for empty ones": false is an empty rule. The arguments are the
-- character in front, and the text from the place of the loop on.
unfoldable pub no_empty_rule : ℕ → List ℕ → Bool
no_empty_rule previous [] = true
no_empty_rule previous (c ∷ []) = not_colon c
  where
    not_colon : ℕ → Bool
    not_colon c = if c == b':' then false else true
no_empty_rule previous (c ∷ d ∷ s) =
    if c == b':' && previous == b':' then false else no_empty_rule c (d ∷ s)

-- The test of all rules. Of an empty text the loop starts behind the NUL, at the bytes `stray`.
unfoldable pub rules_valid : List ℕ → List ℕ → Bool
rules_valid stray [] = no_empty_rule 0 stray
rules_valid stray (c ∷ s) = if c == b':' then false else no_empty_rule c s

-- "Assign rules to the glob_patterns[] array": `rule` is the text from the start of the rule to the
-- place of the loop, `closed` whether a separator has ended it.
unfoldable pub assign : List ℕ → Bool → List ℕ → List (List ℕ)
assign rule closed [] = []
assign rule closed (c ∷ s) =
    let rest = assign [] false s in
    let cut = assign rule true s in
    let longer = if closed then rule else rule ++ (c ∷ []) in
    let more = assign longer closed s in
    if c == b':'
    then rule ∷ rest
    else if c == b'/'
    then rule ∷ cut
    else if length s == 0
    then longer ∷ []
    else more

-- the patterns; `if (i == 0)` the text itself
unfoldable pub patterns : List ℕ → List (List ℕ)
patterns rule = elim (assign [] false rule) [ [] ↦ rule ∷ [] | p ∷ ps ↦ p ∷ ps ]

-- "Validate rules": the first error
unfoldable pub validate : (List ℕ → ℕ) → List (List ℕ) → ℕ
validate pathname_validate_file [] = 0
validate pathname_validate_file (p ∷ ps) =
    if pathname_validate_file p == 0
    then validate pathname_validate_file ps
    else pathname_validate_file p

-- The memory for the patterns: whether the array is allocated, and whether each `strdup` succeeds, by
-- its number. Nothing tests the latter, and the NULL that it leaves ends the list of the patterns.
pub record PatternMemory : Type 0 where
  pub array : Bool
  pub copy : ℕ → Bool

unfoldable pub copied_patterns : (ℕ → Bool) → ℕ → List (List ℕ) → List (List ℕ)
copied_patterns copy i [] = []
copied_patterns copy i (p ∷ ps) =
    let rest = copied_patterns copy (suc i) ps in if copy i then p ∷ rest else []

-- `index_criteria_parse_name` on the text of the option
unfoldable pub parse_name : PatternMemory → List ℕ → (List ℕ → ℕ) → List ℕ → Criteria → ℕ × Criteria
parse_name allocates stray pathname_validate_file criteria ic =
    let rule = drop (length name_option) criteria in
    let stored = copied_patterns allocates.copy 0 (patterns rule) in
    if rules_valid stray rule
    then (if allocates.array
        then (validate pathname_validate_file stored, record ic { glob_patterns = some stored })
        else (no_memory, record ic { glob_patterns = none }))
    else (policy_empty_rule, ic)

-- `index_criteria_find_option`; each call starts behind the start of the one before it
unfoldable pub search : List ℕ → List ℕ → Search
search option s = find_option (suc (length s)) option s

-- "Process size= criteria"; none is a search out of fuel
unfoldable pub parse_sizes : ℕ → List ℕ → Bool → Criteria → Option (ℕ × Criteria)
parse_sizes before filterrules has_name ic = elim (search size_option filterrules) [
  | found s ↦ elim (parse_size before s) [
    | none ↦ some (policy_invalid, ic)
    | some size ↦ some (0, record ic { max_filesize_criteria = size })
  ]
  | repeated ↦ some (policy_invalid, ic)
  | absent ↦ some (if has_name then policy_invalid else 0, ic)
  | out_of_fuel ↦ none
]

abbrev pub no_size : Criteria → Criteria
no_size ic = record ic { max_filesize_criteria = 0 }

-- what follows the name option: its error ends the call
unfoldable pub after_name : ℕ → List ℕ → ℕ × Criteria → Option (ℕ × Criteria)
unfolding parse_sizes
after_name before filterrules (zero, ic) = parse_sizes before filterrules true (no_size ic)
after_name before filterrules (suc ret, ic) = some (suc ret, ic)

-- `index_criteria_parse`. `before` is the byte in front of the buffer of the size, `stray` the bytes
-- behind an empty name, `allocates` the memory for the patterns.
unfoldable pub index_criteria_parse :
    ℕ → PatternMemory → List ℕ → (List ℕ → ℕ) → Option (List ℕ) → Criteria → Option (ℕ × Criteria)
index_criteria_parse before allocates stray pathname_validate_file none ic =
    some (0, record ic { have_criteria = false })
index_criteria_parse before allocates stray pathname_validate_file (some filterrules) ic =
    let fresh = record (free_criteria ic) { have_criteria = true } in
    if contains_invalid_options filterrules
    then some (policy_invalid, fresh)
    else elim (search name_option filterrules) [
      | found s ↦
          after_name before filterrules (parse_name allocates stray pathname_validate_file s fresh)
      | repeated ↦ some (policy_invalid, fresh)
      | absent ↦ parse_sizes before filterrules false (no_size fresh)
      | out_of_fuel ↦ none
    ]

-- `index_criteria_get_max_filesize`
unfoldable pub get_max_filesize : Criteria → ℕ
get_max_filesize ic = if ic.have_criteria then ic.max_filesize_criteria else 0

-- `index_criteria_get_glob_patterns`
unfoldable pub get_glob_patterns : Criteria → Option (List (List ℕ))
get_glob_patterns ic = if ic.have_criteria then ic.glob_patterns else none

-- `index_criteria_dup_rules`; the Booleans are the allocation of the array and of each pattern. None
-- is -LTFS_NO_MEMORY.
unfoldable pub dup_rules : Bool → (List ℕ → Bool) → Criteria → Option Criteria
dup_rules allocates copies src =
    if src.have_criteria
    then (elim src.glob_patterns [
      | none ↦ some src
      | some ps ↦ if allocates && all_copied ps then some src else none
    ])
    else some src
  where
    all_copied : List (List ℕ) → Bool
    all_copied [] = true
    all_copied (p ∷ ps) = copies p && all_copied ps
