-- ===== src/Criteria/MatchTests.antt =====
-- Matches of a name against patterns: tests of the module, and the theorems at them.
use ltfs.Prelude.{ℕ, ◌≤◌, ◌≡◌, refl, true, false, none, some, List, [], ◌∷◌, codes}
use ltfs.Criteria.Rules.{Criteria}
use ltfs.Criteria.Glob.{
  same, is_asterisk, accepts, push, pop, next_char, backtrack, skip_asterisks, try_char, turn,
  match_loop, matches_name,
}
use ltfs.Criteria.Glob.Reference.{glob}
use ltfs.Criteria.Glob.Ends.{matches_name-glob}
use ltfs.Criteria.Match.{
  Unicode, Works, selects, index_criteria_match, index_criteria_match-selects,
}

-- texts of characters of one unit each
abbrev singles : List ℕ → List (List ℕ)
singles [] = []
singles (c ∷ s) = (c ∷ []) ∷ singles s

abbrev plain : Unicode
plain = record { prepare_caseless = λ s. some s; opens = true; characters = singles }

abbrev text_files : Criteria
text_files = record {
  have_criteria = true;
  max_filesize_criteria = 4096;
  glob_patterns = some (codes "*.txt" ∷ codes "a?" ∷ []);
}

plain-Works : Works plain (λ s. s)
plain-Works = record { prepares = λ s. refl; iterates = refl }

matches_name_test :
    (matches_name 40 true (singles (codes "*ab*c")) (singles (codes "aabxbc")) ≡ some true)
    × (matches_name 40 true (singles (codes "*ab*c")) (singles (codes "aabxb")) ≡ some false)
    × (matches_name 40 true (singles (codes "a?")) (singles (codes "a")) ≡ some false)
unfolding matches_name match_loop turn try_char skip_asterisks backtrack next_char pop push accepts
    is_asterisk same
matches_name_test = (refl, refl, refl)

matches_name-glob_example :
    (fuel : ℕ) × ((m : ℕ)
      → fuel ≤ m
      → matches_name m true (singles (codes "*ab*c")) (singles (codes "aabxbc"))
        ≡ some (glob (singles (codes "*ab*c")) (singles (codes "aabxbc"))))
matches_name-glob_example = matches_name-glob (singles (codes "*ab*c")) (singles (codes "aabxbc"))

index_criteria_match-selects_example :
    (fuel : ℕ) × ((m : ℕ)
      → fuel ≤ m
      → (index_criteria_match m true plain text_files none (codes "a.txt")).0
        ≡ some (selects (λ s. s) singles text_files (codes "a.txt")))
index_criteria_match-selects_example =
    index_criteria_match-selects plain (λ s. s) text_files none (codes "a.txt") plain-Works tt
