-- ===== src/Criteria/Match.antt =====
-- libltfs/index_criteria.c: `index_criteria_match`, whether a file goes to the index partition, with
-- the cache of the patterns in comparable form.
use ltfs.Prelude.{
  ℕ, ◌+◌, ◌≤◌, ◌≡◌, refl, Bool, true, false, not, ◌&&◌, ◌||◌, Option, none, some, List, [], ◌∷◌,
  ◌==◌, if◌then◌else◌, arith, Bool-cases, Option-cases, inl, inr,
}
use ltfs.Criteria.Rules.{Criteria}
use ltfs.Criteria.Glob.{matches_name}
use ltfs.Criteria.Glob.Reference.{glob}
use ltfs.Criteria.Glob.Ends.{matches_name-glob}

-- what the calls of ICU answer: the comparable form of a text, and the characters of one
pub record Unicode : Type 0 where
  pub prepare_caseless : List ℕ → Option (List ℕ)
  pub opens : Bool
  pub characters : List ℕ → List (List ℕ)

-- the loop over the patterns of the cache; an iterator that does not open passes for no match
unfoldable pub match_any : ℕ → Bool → Unicode → List (List ℕ) → List ℕ → Option Bool
match_any fuel allocates icu [] dname = some false
match_any fuel allocates icu (p ∷ ps) dname =
    let rest = match_any fuel allocates icu ps dname in
    if icu.opens
    then (elim (matches_name fuel allocates (icu.characters p) (icu.characters dname)) [
      | none ↦ none
      | some true ↦ some true
      | some false ↦ rest
    ])
    else rest

-- `_prepare_glob_cache`: whether it succeeds, and the cache, up to the pattern that fails
unfoldable pub prepare_glob_cache : Unicode → List (List ℕ) → Bool × List (List ℕ)
prepare_glob_cache icu [] = (true, [])
prepare_glob_cache icu (p ∷ ps) =
    let rest = prepare_glob_cache icu ps in
    elim (icu.prepare_caseless p) [ none ↦ (false, []) | some q ↦ (rest.0, q ∷ rest.1) ]

-- the match against a cache that is there
unfoldable pub match_cached : ℕ → Bool → Unicode → List (List ℕ) → List ℕ → Option Bool
match_cached fuel allocates icu glob_cache name = elim (icu.prepare_caseless name) [
  | none ↦ some true
  | some dname ↦ match_any fuel allocates icu glob_cache dname
]

-- `index_criteria_match`: the answer, and the cache. An error's negative code is returned as a bool,
-- which is true.
unfoldable pub index_criteria_match :
    ℕ
    → Bool
    → Unicode
    → Criteria
    → Option (List (List ℕ))
    → List ℕ
    → Option Bool × Option (List (List ℕ))
index_criteria_match fuel allocates icu ic glob_cache name =
    if not ic.have_criteria || ic.max_filesize_criteria == 0
    then (some false, glob_cache)
    else elim ic.glob_patterns [
      | none ↦ (some true, glob_cache)
      | some ps ↦ elim glob_cache [
        | some cache ↦ (match_cached fuel allocates icu cache name, some cache)
        | none ↦
            if allocates
            then (let prepared = prepare_glob_cache icu ps in
                if prepared.0
                then (match_cached fuel allocates icu prepared.1 name, some prepared.1)
                else (some true, some prepared.1))
            else (some true, none)
      ]
    ]

-- calls of ICU that succeed
pub record Works (icu : Unicode) (prepared : List ℕ → List ℕ) : Type 0 where
  pub prepares : (s : List ℕ) → icu.prepare_caseless s ≡ some (prepared s)
  pub iterates : icu.opens ≡ true

abbrev pub any_glob : List (List ℕ) → (List ℕ → List (List ℕ)) → List ℕ → Bool
any_glob [] characters name = false
any_glob (p ∷ ps) characters name =
    glob (characters p) (characters name) || any_glob ps characters name

abbrev pub map_prepared : (List ℕ → List ℕ) → List (List ℕ) → List (List ℕ)
map_prepared f [] = []
map_prepared f (p ∷ ps) = f p ∷ map_prepared f ps

-- whether a file goes to the index partition: there are rules, files of some size may go there, and
-- the name matches one of the patterns, if there are any
abbrev pub selects : (List ℕ → List ℕ) → (List ℕ → List (List ℕ)) → Criteria → List ℕ → Bool
selects prepared characters ic name =
    ic.have_criteria
    && (not (ic.max_filesize_criteria == 0) && (elim ic.glob_patterns [
      | none ↦ true
      | some ps ↦ any_glob (map_prepared prepared ps) characters (prepared name)
    ]))

prepare_glob_cache-Works :
    (icu : Unicode) (prepared : List ℕ → List ℕ) (ps : List (List ℕ))
    → Works icu prepared
    → prepare_glob_cache icu ps ≡ (true, map_prepared prepared ps)
unfolding prepare_glob_cache
prepare_glob_cache-Works icu prepared [] w = refl
prepare_glob_cache-Works icu prepared (p ∷ ps) w =
    rw (prepare_glob_cache, w.prepares p, prepare_glob_cache-Works icu prepared ps w)

match_any-any_glob :
    (icu : Unicode) (prepared : List ℕ → List ℕ) (ps : List (List ℕ)) (dname : List ℕ)
    → Works icu prepared
    → (fuel : ℕ) × ((m : ℕ)
        → fuel ≤ m
        → match_any m true icu ps dname ≡ some (any_glob ps icu.characters dname))
unfolding match_any
match_any-any_glob icu prepared [] dname w = (0, λ m h. refl)
match_any-any_glob icu prepared (p ∷ ps) dname w =
    let (fuel, f) = matches_name-glob (icu.characters p) (icu.characters dname) in
    let (fuel', f') = match_any-any_glob icu prepared ps dname w in
    (fuel + fuel', λ m h. by_match m (f m (omega arith)) (f' m (omega arith)))
  where
    by_match :
        (m : ℕ)
        → matches_name m true (icu.characters p) (icu.characters dname)
          ≡ some (glob (icu.characters p) (icu.characters dname))
        → match_any m true icu ps dname ≡ some (any_glob ps icu.characters dname)
        → match_any m true icu (p ∷ ps) dname ≡ some (any_glob (p ∷ ps) icu.characters dname)
    by_match m e e' = elim (Bool-cases (glob (icu.characters p) (icu.characters dname))) [
      | inl g ↦ rw (match_any, w.iterates, e, g)
      | inr g ↦ rw (match_any, w.iterates, e, g, e')
    ]

-- the cache of a volume: not yet there, or made of the patterns
abbrev pub IsCache : Unicode → (List ℕ → List ℕ) → Criteria → Option (List (List ℕ)) → Type 0
IsCache icu prepared ic none = Unit
IsCache icu prepared ic (some cache) =
    (ps : List (List ℕ)) → ic.glob_patterns ≡ some ps → cache ≡ map_prepared prepared ps

match_cached-selects :
    (icu : Unicode) (prepared : List ℕ → List ℕ) (ps : List (List ℕ)) (name : List ℕ)
    → Works icu prepared
    → (fuel : ℕ) × ((m : ℕ)
        → fuel ≤ m
        → match_cached m true icu (map_prepared prepared ps) name
          ≡ some (any_glob (map_prepared prepared ps) icu.characters (prepared name)))
unfolding match_cached
match_cached-selects icu prepared ps name w =
    let (fuel, f) = match_any-any_glob icu prepared (map_prepared prepared ps) (prepared name) w in
    (fuel, λ m h. rw (match_cached, w.prepares name) (f m h))

-- When the calls of ICU succeed and there is memory, the match of a file from some fuel on answers
-- whether there are rules, the size of the rules is not 0, and the name matches one of the patterns
-- if there are any, by the reference for one pattern. The cache is not there yet, or has exactly the
-- patterns, prepared.
pub index_criteria_match-selects :
    (icu : Unicode) (prepared : List ℕ → List ℕ) (ic : Criteria)
    (glob_cache : Option (List (List ℕ))) (name : List ℕ)
    → Works icu prepared
    → IsCache icu prepared ic glob_cache
    → (fuel : ℕ) × ((m : ℕ)
        → fuel ≤ m
        → (index_criteria_match m true icu ic glob_cache name).0
          ≡ some (selects prepared icu.characters ic name))
unfolding index_criteria_match
index_criteria_match-selects icu prepared ic glob_cache name w c =
    elim (Bool-cases ic.have_criteria) [
      | inr r ↦ (0, λ m h. rw (index_criteria_match, r))
      | inl r ↦ elim (Bool-cases (ic.max_filesize_criteria == 0)) [
        | inl z ↦ (0, λ m h. rw (index_criteria_match, r, z))
        | inr z ↦ elim (Option-cases ic.glob_patterns) [
          | inl e ↦ (0, λ m h. rw (index_criteria_match, r, z, e))
          | inr (ps, e) ↦
              let (fuel, f) = match_cached-selects icu prepared ps name w in
              (fuel, λ m h. by_cache ps r z e m (f m h) glob_cache c)
        ]
      ]
    ]
  where
    by_cache :
        (ps : List (List ℕ))
        → ic.have_criteria ≡ true
        → (ic.max_filesize_criteria == 0) ≡ false
        → ic.glob_patterns ≡ some ps
        → (m : ℕ)
        → match_cached m true icu (map_prepared prepared ps) name
          ≡ some (any_glob (map_prepared prepared ps) icu.characters (prepared name))
        → (cache : Option (List (List ℕ))) → IsCache icu prepared ic cache
        → (index_criteria_match m true icu ic cache name).0
          ≡ some (selects prepared icu.characters ic name)
    by_cache ps r z e m f none i =
        rw (index_criteria_match, r, z, e, prepare_glob_cache-Works icu prepared ps w) f
    by_cache ps r z e m f (some cache) i = rw (index_criteria_match, r, z, e, i ps e) f
