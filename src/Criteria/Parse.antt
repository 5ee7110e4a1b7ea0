-- ===== src/Criteria/Parse.antt =====
-- What `index_criteria_parse` makes of the text of rules that name patterns and a size, and that the
-- searches of a call never run out of fuel.
use ltfs.Prelude.{
  ℕ, ◌*◌, ◌%◌, ◌^◌, ◌≤◌, ◌<◌, ◌≡◌, refl, ap, ◌∙◌, Bool, true, false, some, List, ◌∷◌, ◌++◌, length,
  length-append, ltb, arith, le→ltb_not, drop,
}
use ltfs.Criteria.{
  name_option, size_option, starts, to_lower, is_option, contains_invalid_options, found,
}
use ltfs.Criteria.Rules.{
  Criteria, free_criteria, validate, parse_name, parse_size, search, parse_sizes, after_name,
  index_criteria_parse,
}
use ltfs.Criteria.Options.{options_of, answer, Whole, find_option-parts}
use ltfs.Criteria.Names.{IsPattern, AllPatterns, joined, all_memory, parse_name-joined}
use ltfs.Criteria.Sizes.{Scale, factor, digits, value, AllDigits, parse_size-digits, letter}
use ltfs.Criteria.Texts.{
  name_option-IsName, size_option-IsName, parts-join, separators_valid-join, name_text, size_text,
  Whole-append, IsPattern-Whole, joined-Whole, digits-Whole, letter-Whole,
}

-- a part that is the name option, and one that is the size option
abbrev IsNamePart : List ℕ → Type 0
IsNamePart s = (starts name_option s ≡ true) × (starts size_option s ≡ false)

abbrev IsSizePart : List ℕ → Type 0
IsSizePart s = (starts name_option s ≡ false) × (starts size_option s ≡ true)

-- the two parts in one of the two orders
abbrev pub rules_text : Bool → List ℕ → List ℕ → List ℕ
rules_text true s t = s ++ (b'/' ∷ t)
rules_text false s t = t ++ (b'/' ∷ s)

search_name :
    (first : Bool) (s t : List ℕ)
    → Whole s
    → Whole t
    → IsNamePart s
    → IsSizePart t
    → search name_option (rules_text first s t) ≡ found s
unfolding search answer options_of
search_name true s t w v a b =
    find_option-parts _ name_option (s ++ (b'/' ∷ t)) name_option-IsName (omega arith)
    ∙ rw (parts-join s t w v, a.0, b.0)
search_name false s t w v a b =
    find_option-parts _ name_option (t ++ (b'/' ∷ s)) name_option-IsName (omega arith)
    ∙ rw (parts-join t s v w, a.0, b.0)

search_size :
    (first : Bool) (s t : List ℕ)
    → Whole s
    → Whole t
    → IsNamePart s
    → IsSizePart t
    → search size_option (rules_text first s t) ≡ found t
unfolding search answer options_of
search_size true s t w v a b =
    find_option-parts _ size_option (s ++ (b'/' ∷ t)) size_option-IsName (omega arith)
    ∙ rw (parts-join s t w v, a.1, b.1)
search_size false s t w v a b =
    find_option-parts _ size_option (t ++ (b'/' ∷ s)) size_option-IsName (omega arith)
    ∙ rw (parts-join t s v w, a.1, b.1)

contains_invalid_options-join :
    (c : ℕ) (s t : List ℕ)
    → Whole s
    → Whole t
    → 5 ≤ length (c ∷ s)
    → is_option (c ∷ s ++ (b'/' ∷ t)) ≡ true
    → is_option t ≡ true
    → contains_invalid_options (c ∷ s ++ (b'/' ∷ t)) ≡ false
unfolding contains_invalid_options
contains_invalid_options-join c s t w v l o p =
    let long : ltb (length (c ∷ s ++ (b'/' ∷ t))) 5 ≡ false =
      le→ltb_not 5 _ (omega (arith, l, length-append s (b'/' ∷ t))) in
    rw (long, o, separators_valid-join s t w v p)

module _ (n : List ℕ) (ns : List (List ℕ)) (d : ℕ) (ds : List ℕ) (scale : Scale)
    (pattern : IsPattern n) (patterns : AllPatterns ns) (decimal : AllDigits (d ∷ ds)) where
  name_text-Whole : Whole (n ++ joined ns)
  name_text-Whole =
      Whole-append n (joined ns) (IsPattern-Whole n pattern) (joined-Whole ns patterns)

  size_text-Whole : Whole (digits (d ∷ ds) ++ letter scale)
  size_text-Whole =
      Whole-append (digits (d ∷ ds)) (letter scale) (digits-Whole (d ∷ ds) decimal)
        (letter-Whole scale)

  name_option-Whole : (s : List ℕ) → Whole s → Whole (name_option ++ s)
  name_option-Whole s w = Whole-append name_option s name_option-IsName.whole w

  size_option-Whole : (s : List ℕ) → Whole s → Whole (size_option ++ s)
  size_option-Whole s w = Whole-append size_option s size_option-IsName.whole w

  name_text-IsNamePart : IsNamePart (name_text n ns)
  unfolding starts to_lower
  name_text-IsNamePart = (refl, refl)

  size_text-IsSizePart : IsSizePart (size_text (d ∷ ds) scale)
  unfolding starts to_lower
  size_text-IsSizePart = (refl, refl)

  search_name-rules_text :
      (first : Bool)
      → search name_option (rules_text first (name_text n ns) (size_text (d ∷ ds) scale))
        ≡ found (name_text n ns)
  search_name-rules_text first =
      search_name first (name_text n ns) (size_text (d ∷ ds) scale)
        (name_option-Whole (n ++ joined ns) name_text-Whole)
        (size_option-Whole (digits (d ∷ ds) ++ letter scale) size_text-Whole) name_text-IsNamePart
        size_text-IsSizePart

  search_size-rules_text :
      (first : Bool)
      → search size_option (rules_text first (name_text n ns) (size_text (d ∷ ds) scale))
        ≡ found (size_text (d ∷ ds) scale)
  search_size-rules_text first =
      search_size first (name_text n ns) (size_text (d ∷ ds) scale)
        (name_option-Whole (n ++ joined ns) name_text-Whole)
        (size_option-Whole (digits (d ∷ ds) ++ letter scale) size_text-Whole) name_text-IsNamePart
        size_text-IsSizePart

  contains_invalid_options-rules_text :
      (first : Bool)
      → contains_invalid_options (rules_text first (name_text n ns) (size_text (d ∷ ds) scale))
        ≡ false
  unfolding is_option starts to_lower
  contains_invalid_options-rules_text true =
      contains_invalid_options-join b'n' (drop 1 name_option ++ n ++ joined ns) _
        (name_option-Whole (n ++ joined ns) name_text-Whole).1
        (size_option-Whole (digits (d ∷ ds) ++ letter scale) size_text-Whole) (omega arith) refl
        refl
  contains_invalid_options-rules_text false =
      contains_invalid_options-join b's' (drop 1 size_option ++ digits (d ∷ ds) ++ letter scale) _
        (size_option-Whole (digits (d ∷ ds) ++ letter scale) size_text-Whole).1
        (name_option-Whole (n ++ joined ns) name_text-Whole) (omega arith) refl refl

-- a text with both options
index_criteria_parse-both :
    (before size : ℕ) (stray : List ℕ) (valid : List ℕ → ℕ) (text s t : List ℕ)
    (ic named : Criteria)
    → contains_invalid_options text ≡ false
    → search name_option text ≡ found s
    → search size_option text ≡ found t
    → parse_name all_memory stray valid s (record (free_criteria ic) { have_criteria = true })
      ≡ (0, named)
    → parse_size before t ≡ some size
    → index_criteria_parse before all_memory stray valid (some text) ic
      ≡ some (0, record named { max_filesize_criteria = size })
unfolding index_criteria_parse after_name parse_sizes
index_criteria_parse-both before size stray valid text s t ic named c f g p z =
    rw (c, f, p, after_name, parse_sizes, g, z)

-- The text of a name option and a size option, in either order, where the patterns are not empty,
-- have no colon and no separator and pass the validation of file names, and the size is a decimal
-- number below 2 ^ 64 with a letter for a factor or none: if every allocation succeeds, the call
-- succeeds, the patterns are the
-- ones of the text in their order, and the size is the number times the factor modulo 2 ^ 64,
-- whatever the structure held before.
pub index_criteria_parse-rules_text :
    (before : ℕ) (stray : List ℕ) (valid : List ℕ → ℕ) (first : Bool) (n : List ℕ)
    (ns : List (List ℕ)) (d : ℕ) (ds : List ℕ) (scale : Scale) (ic : Criteria)
    → IsPattern n
    → AllPatterns ns
    → AllDigits (d ∷ ds)
    → value (d ∷ ds) < 2 ^ 64
    → validate valid (n ∷ ns) ≡ 0
    → index_criteria_parse before all_memory stray valid
        (some (rules_text first (name_text n ns) (size_text (d ∷ ds) scale)))
        ic
      ≡ some (
        0,
        record {
          have_criteria = true;
          max_filesize_criteria = value (d ∷ ds) * factor scale % 2 ^ 64;
          glob_patterns = some (n ∷ ns);
        },
      )
unfolding index_criteria_parse
index_criteria_parse-rules_text before stray valid first n ns d ds scale ic p a h l v =
    let named = record (free_criteria ic) { have_criteria = true; glob_patterns = some (n ∷ ns) } in
    index_criteria_parse-both before _ stray valid _ _ _ ic named
      (contains_invalid_options-rules_text n ns d ds scale p a h first)
      (search_name-rules_text n ns d ds scale p a h first)
      (search_size-rules_text n ns d ds scale p a h first)
      (parse_name-joined stray valid n ns _ p a ∙ ap (λ ret. (ret, named)) v)
      (parse_size-digits scale d ds before h l)
