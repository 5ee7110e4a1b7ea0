-- ===== src/Criteria/Names.antt =====
-- What `index_criteria_parse_name` makes of the patterns of a name option, joined by colons.
use ltfs.Prelude.{
  ℕ, suc, ◌≡◌, refl, ap, ◌∙◌, true, false, some, List, [], ◌∷◌, ◌++◌, append_assoc, length, ◌==◌,
  arith,
}
use ltfs.Criteria.{name_option}
use ltfs.Criteria.Rules.{
  Criteria, no_empty_rule, rules_valid, assign, patterns, validate, parse_name, PatternMemory,
  copied_patterns,
}

-- the text behind the first pattern
abbrev pub joined : List (List ℕ) → List ℕ
joined [] = []
joined (n ∷ ns) = b':' ∷ (n ++ joined ns)

-- a pattern without colon and separator, and one that is not empty
abbrev pub Plain : List ℕ → Type 0
Plain [] = Unit
Plain (c ∷ s) = ((c == b':') ≡ false) × ((c == b'/') ≡ false) × Plain s

abbrev pub IsPattern : List ℕ → Type 0
IsPattern [] = ⊥
IsPattern (c ∷ s) = Plain (c ∷ s)

abbrev pub AllPatterns : List (List ℕ) → Type 0
AllPatterns [] = Unit
AllPatterns (n ∷ ns) = IsPattern n × AllPatterns ns

nonzero : (n : ℕ) → (suc n == 0) ≡ false
nonzero n = ground arith

-- The two loops step over a pattern to the next one.
assign-joined :
    (n rule : List ℕ) (ns : List (List ℕ))
    → IsPattern n
    → AllPatterns ns
    → assign rule false (n ++ joined ns) ≡ (rule ++ n) ∷ ns
unfolding assign
assign-joined [] rule ns p a = absurd p
assign-joined (c ∷ []) rule [] p a = rw (p.0, p.1)
assign-joined (c ∷ []) rule (m ∷ ns) p a =
    rw (p.0, p.1, nonzero (length (m ++ joined ns)))
      (ap (◌∷◌ (rule ++ (c ∷ []))) (assign-joined m [] ns a.0 a.1))
assign-joined (c ∷ d ∷ n) rule ns p a =
    rw (p.0, p.1, nonzero (length (n ++ joined ns)))
      (assign-joined (d ∷ n) (rule ++ (c ∷ [])) ns p.2 a
        ∙ ap (λ r. r ∷ ns) (append_assoc rule (c ∷ []) (d ∷ n)))

no_empty_rule-joined :
    (n : List ℕ) (previous : ℕ) (ns : List (List ℕ))
    → IsPattern n
    → AllPatterns ns
    → no_empty_rule previous (n ++ joined ns) ≡ true
unfolding no_empty_rule
no_empty_rule-joined [] previous ns p a = absurd p
no_empty_rule-joined (c ∷ []) previous [] p a = rw p.0
no_empty_rule-joined (c ∷ []) previous ([] ∷ ns) p a = absurd a.0
no_empty_rule-joined (c ∷ []) previous ((d ∷ m) ∷ ns) p a =
    rw p.0 (no_empty_rule-joined (d ∷ m) b':' ns a.0 a.1)
no_empty_rule-joined (c ∷ d ∷ n) previous ns p a = rw p.0 (no_empty_rule-joined (d ∷ n) c ns p.2 a)

rules_valid-joined :
    (stray n : List ℕ) (ns : List (List ℕ))
    → IsPattern n
    → AllPatterns ns
    → rules_valid stray (n ++ joined ns) ≡ true
unfolding rules_valid no_empty_rule
rules_valid-joined stray [] ns p a = absurd p
rules_valid-joined stray (c ∷ []) [] p a = rw p.0
rules_valid-joined stray (c ∷ []) ([] ∷ ns) p a = absurd a.0
rules_valid-joined stray (c ∷ []) ((d ∷ m) ∷ ns) p a =
    rw p.0 (no_empty_rule-joined (d ∷ m) b':' ns a.0 a.1)
rules_valid-joined stray (c ∷ d ∷ n) ns p a = rw p.0 (no_empty_rule-joined (d ∷ n) c ns p.2 a)

-- every allocation succeeds
abbrev pub all_memory : PatternMemory
all_memory = record { array = true; copy = λ i. true }

copied_patterns_all : (i : ℕ) (ps : List (List ℕ)) → copied_patterns all_memory.copy i ps ≡ ps
unfolding copied_patterns
copied_patterns_all i [] = refl
copied_patterns_all i (p ∷ ps) = ap (◌∷◌ p) (copied_patterns_all (suc i) ps)

-- The text of one or more patterns, none of them empty and none with a colon or a separator, gives
-- the patterns in their order, whatever stands behind the text; the call answers what the
-- validation of the patterns does.
pub parse_name-joined :
    (stray : List ℕ) (valid : List ℕ → ℕ) (n : List ℕ) (ns : List (List ℕ)) (ic : Criteria)
    → IsPattern n
    → AllPatterns ns
    → parse_name all_memory stray valid (name_option ++ n ++ joined ns) ic
      ≡ (validate valid (n ∷ ns), record ic { glob_patterns = some (n ∷ ns) })
unfolding parse_name patterns validate assign
parse_name-joined stray valid n ns ic p a =
    rw
      (rules_valid-joined stray n ns p a, assign-joined n [] ns p a, copied_patterns_all 0 (n ∷ ns))
      refl
