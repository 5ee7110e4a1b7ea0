-- ===== src/Criteria/Tests.antt =====
-- Texts of rules: tests of the module, and the theorems at them.
use ltfs.Prelude.{◌≡◌, refl, true, none, false, some, List, [], ◌∷◌, ℕ, codes, arith, ◌*◌}
use ltfs.Criteria.{
  name_option, to_lower, is_alpha, is_digit, starts, is_option, separators_valid,
  contains_invalid_options, walk, option_start, before_separator, from_separator, unless_repeated,
  find_option, found, repeated,
}
use ltfs.Criteria.Rules.{
  Criteria, PatternMemory, validate, index_criteria_parse, parse_size, adjacent, last_char,
  drop_last, multiplier, number, strtoull, decimal,
}
use ltfs.Criteria.Options.{parts, options_of, answer, find_option-parts}
use ltfs.Criteria.Sizes.{kilo}
use ltfs.Criteria.Texts.{name_text, size_text, name_option-IsName}
use ltfs.Criteria.Names.{all_memory}
use ltfs.Criteria.Parse.{rules_text, index_criteria_parse-rules_text}
use ltfs.Criteria.Returns.{Returns, index_criteria_parse-Returns}

abbrev blank : Criteria
blank = record { have_criteria = true; max_filesize_criteria = 7; glob_patterns = some [] }

-- three options of one kind
abbrev thrice : List ℕ
thrice = codes "SIZE=1k/size=2k/size=3k"

contains_invalid_options_test : contains_invalid_options (codes "name=*.txt/size=1M") ≡ false
unfolding contains_invalid_options is_option starts to_lower separators_valid
contains_invalid_options_test = refl

contains_invalid_options_test_2 : contains_invalid_options (codes "name=a/b") ≡ true
unfolding contains_invalid_options is_option starts to_lower separators_valid
contains_invalid_options_test_2 = refl

-- The search refuses a second option of a kind, but not a third one.
find_option_test :
    (find_option 9 (codes "size=") (codes "size=1/size=2") ≡ repeated)
    × (find_option 9 (codes "size=") thrice ≡ found (codes "SIZE=1k"))
unfolding find_option option_start walk starts to_lower before_separator from_separator
    unless_repeated
find_option_test = (refl, refl)

-- A number above 64 bits wraps around to a size of no file.
parse_size_test :
    (parse_size 0 (codes "size=17179869184G") ≡ some 0)
    × (parse_size 0 (codes "size=12kb") ≡ none)
    × (parse_size b'k' (codes "size=") ≡ none)
unfolding parse_size adjacent is_alpha is_digit last_char drop_last multiplier number strtoull
    decimal
parse_size_test = (refl, refl, refl)

find_option-parts_example :
    find_option 30 name_option (codes "name=a/size=1k/name=b/name=c")
    ≡ answer (options_of name_option (parts (codes "name=a/size=1k/name=b/name=c")))
find_option-parts_example =
    find_option-parts 30 name_option (codes "name=a/size=1k/name=b/name=c") name_option-IsName
      (omega arith)

index_criteria_parse-rules_text_example :
    index_criteria_parse 0 all_memory []
      (λ n. 0)
      (some (
        rules_text false
          (name_text (codes "*.txt") (codes "a?" ∷ []))
          (size_text (6 ∷ 4 ∷ []) (kilo true))))
      blank
    ≡ some (
      0,
      record {
        have_criteria = true;
        max_filesize_criteria = 64 * 1024;
        glob_patterns = some (codes "*.txt" ∷ codes "a?" ∷ []);
      },
    )
unfolding validate
index_criteria_parse-rules_text_example =
    index_criteria_parse-rules_text 0 [] (λ n. 0) false (codes "*.txt") (codes "a?" ∷ []) 6 (4 ∷ [])
      (kilo true) blank (refl, refl, (refl, refl, (refl, refl, (refl, refl, (refl, refl, tt)))))
      ((refl, refl, (refl, refl, tt)), tt) (omega arith) (omega arith) refl

abbrev no_array : PatternMemory
no_array = record { array = false; copy = λ i. true }

index_criteria_parse-Returns_example :
    Returns (index_criteria_parse 0 no_array [] (λ n. 0) (some thrice) blank)
index_criteria_parse-Returns_example =
    index_criteria_parse-Returns 0 no_array [] (λ n. 0) thrice blank (omega arith)
