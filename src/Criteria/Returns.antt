-- ===== src/Criteria/Returns.antt =====
-- That `index_criteria_parse` returns on every text, and what its structure then holds.
use ltfs.Prelude.{
  ℕ, zero, suc, ◌^◌, ◌<◌, ◌≡◌, ◌≢◌, refl, sym, ◌∙◌, Bool, true, false, Option, none, some, List, [],
  ◌∷◌, arith, Bool-cases, inl, inr,
}
use ltfs.Criteria.{
  name_option, size_option, contains_invalid_options, Search, found, absent, repeated, out_of_fuel,
}
use ltfs.Criteria.Rules.{
  Criteria, free_criteria, PatternMemory, parse_name, parse_size, number, search, no_size,
  parse_sizes, after_name, index_criteria_parse,
}
use ltfs.Criteria.Options.{answer, IsName, find_option-parts}
use ltfs.Criteria.Texts.{name_option-IsName, size_option-IsName}

answer-Returns : (ps : List (List ℕ)) → answer ps ≢ out_of_fuel
unfolding answer
answer-Returns [] h = ground arith
answer-Returns (p ∷ ps) h = ground arith

search-Returns : (option s : List ℕ) → IsName option → search option s ≢ out_of_fuel
unfolding search
search-Returns option s n e =
    answer-Returns _ (sym (find_option-parts _ option s n (omega arith)) ∙ e)

number-bound : (m : ℕ) (s : List ℕ) (size : ℕ) → number m s ≡ some size → size < 2 ^ 64
unfolding number
number-bound m [] size h = ground arith
number-bound m (c ∷ s) size h = ground arith

parse_size-bound :
    (before : ℕ) (s : List ℕ) (size : ℕ) → parse_size before s ≡ some size → size < 2 ^ 64
unfolding parse_size
parse_size-bound before s size h = grind (arith, number-bound)

-- a structure with rules, and a size of 64 bits
pub record HoldsRules (ic : Criteria) : Type 0 where
  pub rules : ic.have_criteria ≡ true
  pub size : ic.max_filesize_criteria < 2 ^ 64

-- a call returns, with such a structure
abbrev pub Returns : Option (ℕ × Criteria) → Type 0
Returns none = ⊥
Returns (some (ret, ic)) = HoldsRules ic

parse_sizes-Returns :
    (before : ℕ) (s : List ℕ) (has_name : Bool) (ic : Criteria)
    → HoldsRules ic
    → Returns (parse_sizes before s has_name ic)
unfolding parse_sizes
parse_sizes-Returns before s has_name ic i = by_search (search size_option s) refl
  where
    by_size :
        (t : List ℕ) (o : Option ℕ)
        → parse_size before t ≡ o
        → search size_option s ≡ found t
        → Returns (parse_sizes before s has_name ic)
    by_size t none e h = rw (parse_sizes, h, e) i
    by_size t (some size) e h =
        rw (parse_sizes, h, e) (record { rules = i.rules; size = parse_size-bound before t size e })

    by_search : (r : Search) → search size_option s ≡ r → Returns (parse_sizes before s has_name ic)
    by_search (found t) h = by_size t (parse_size before t) refl h
    by_search absent h = rw (parse_sizes, h) i
    by_search repeated h = rw (parse_sizes, h) i
    by_search out_of_fuel h = absurd (search-Returns size_option s size_option-IsName h)

after_name-Returns :
    (before : ℕ) (s : List ℕ) (r : ℕ × Criteria) → HoldsRules r.1 → Returns (after_name before s r)
unfolding after_name
after_name-Returns before s (zero, ic) i =
    parse_sizes-Returns before s true (no_size ic) (record { rules = i.rules; size = omega arith })
after_name-Returns before s (suc ret, ic) i = i

parse_name-HoldsRules :
    (allocates : PatternMemory) (stray : List ℕ) (valid : List ℕ → ℕ) (s : List ℕ) (ic : Criteria)
    → HoldsRules ic
    → HoldsRules (parse_name allocates stray valid s ic).1
unfolding parse_name
parse_name-HoldsRules allocates stray valid s ic i = ground (arith, i.rules, i.size)

free_criteria-size :
    (ic : Criteria)
    → ic.max_filesize_criteria < 2 ^ 64
    → (free_criteria ic).max_filesize_criteria < 2 ^ 64
unfolding free_criteria
free_criteria-size ic h = ground arith

-- On every text of rules, whatever the allocations and the validation of the patterns answer, the
-- call returns, and then the structure is set and its size is a number of 64 bits, if it was before.
pub index_criteria_parse-Returns :
    (before : ℕ) (allocates : PatternMemory) (stray : List ℕ) (valid : List ℕ → ℕ) (s : List ℕ)
    (ic : Criteria)
    → ic.max_filesize_criteria < 2 ^ 64
    → Returns (index_criteria_parse before allocates stray valid (some s) ic)
unfolding index_criteria_parse
index_criteria_parse-Returns before allocates stray valid s ic h =
    elim (Bool-cases (contains_invalid_options s)) [
      | inl c ↦ rw (index_criteria_parse, c) fresh
      | inr c ↦ by_search c (search name_option s) refl
    ]
  where
    fresh : HoldsRules (record (free_criteria ic) { have_criteria = true })
    fresh = record { rules = refl; size = free_criteria-size ic h }

    by_search :
        contains_invalid_options s ≡ false
        → (r : Search) → search name_option s ≡ r
        → Returns (index_criteria_parse before allocates stray valid (some s) ic)
    by_search c (found t) e =
        rw (index_criteria_parse, c, e)
          (after_name-Returns before s _ (parse_name-HoldsRules allocates stray valid t _ fresh))
    by_search c absent e =
        rw (index_criteria_parse, c, e)
          (parse_sizes-Returns before s false _ (record { rules = refl; size = omega arith }))
    by_search c repeated e = rw (index_criteria_parse, c, e) fresh
    by_search c out_of_fuel e = absurd (search-Returns name_option s name_option-IsName e)
