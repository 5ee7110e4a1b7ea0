-- ===== src/Criteria/Options.antt =====
-- The options of a text of rules as its parts between the separators, and what
-- `index_criteria_find_option` makes of them.
use ltfs.Prelude.{
  ℕ, zero, suc, ◌%◌, ◌≤◌, ◌<◌, ◌≡◌, refl, ap, subst, ◌∙◌, true, false, Option, none, some, List, [],
  ◌∷◌, length, ltb, le→ltb_not, ◌==◌, if◌then◌else◌, arith, Bool-cases, inl, inr,
}
use ltfs.Criteria.{
  to_lower, starts, before_separator, from_separator, walk, option_start, Search, found, absent,
  repeated, unless_repeated, find_option,
}

-- the parts of a text behind its separators, and all of its parts
unfoldable pub others : List ℕ → List (List ℕ)
others [] = []
others (c ∷ s) = if c == b'/' then before_separator s ∷ others s else others s

unfoldable pub parts : List ℕ → List (List ℕ)
parts s = before_separator s ∷ others s

-- the parts that are an option
unfoldable pub options_of : List ℕ → List (List ℕ) → List (List ℕ)
options_of option [] = []
options_of option (p ∷ ps) =
    if starts option p then p ∷ options_of option ps else options_of option ps

-- what a search makes of the parts that are the option: the first one, if their number is odd
unfoldable pub answer : List (List ℕ) → Search
answer [] = absent
answer (p ∷ ps) = if length ps % 2 == 0 then found p else repeated

-- a text without separator
abbrev pub Whole : List ℕ → Type 0
Whole [] = Unit
Whole (c ∷ s) = ((c == b'/') ≡ false) × Whole s

-- the name of an option: as long as the ones that the search is for
pub record IsName (option : List ℕ) : Type 0 where
  pub size : 5 ≤ length option
  pub whole : Whole option

unless_repeated_lem :
    (p : List ℕ) (ps : List (List ℕ)) → unless_repeated p (answer ps) ≡ answer (p ∷ ps)
unfolding unless_repeated answer
unless_repeated_lem p [] = refl
unless_repeated_lem p (q ∷ ps) = ground arith

-- No letter is a separator in the other case.
to_lower_slash :
    (o c : ℕ) → (c == b'/') ≡ true → (o == b'/') ≡ false → (to_lower o == to_lower c) ≡ false
unfolding to_lower
to_lower_slash o c h k = ground arith

starts-before_separator :
    (option s : List ℕ) → Whole option → starts option (before_separator s) ≡ starts option s
unfolding starts before_separator
starts-before_separator [] s w = refl
starts-before_separator (o ∷ option) [] w = refl
starts-before_separator (o ∷ option) (c ∷ s) w = elim (Bool-cases (c == b'/')) [
  | inl h ↦ rw (h, to_lower_slash o c h w.0)
  | inr h ↦ rw (h, starts-before_separator option s w.1)
]

starts-length : (option s : List ℕ) → starts option s ≡ true → length option ≤ length s
unfolding starts
starts-length [] s h = omega arith
starts-length (o ∷ option) [] h = ground arith
starts-length (o ∷ option) (c ∷ s) h = ground (arith, starts-length option s)

module _ (option : List ℕ) (n : IsName option) where
  options_of-skip :
      (s : List ℕ) (ps : List (List ℕ))
      → starts option s ≡ false
      → options_of option (before_separator s ∷ ps) ≡ options_of option ps
  unfolding options_of
  options_of-skip s ps h = rw (starts-before_separator option s n.whole, h)

  options_of-take :
      (s : List ℕ) (ps : List (List ℕ))
      → starts option s ≡ true
      → options_of option (before_separator s ∷ ps) ≡ before_separator s ∷ options_of option ps
  unfolding options_of
  options_of-take s ps h = rw (starts-before_separator option s n.whole, h)

  starts-nil : starts option [] ≡ false
  starts-nil = elim (Bool-cases (starts option [])) [
    | inl h ↦ absurd (omega (arith, starts-length option [] h, n.size))
    | inr h ↦ h
  ]

  -- the options that a match leaves: it, and the ones behind it
  abbrev chosen : Option (List ℕ) → List (List ℕ)
  chosen none = []
  chosen (some t) = before_separator t ∷ options_of option (others t)

  -- a match is the option and no longer than the text
  abbrev IsMatch : List ℕ → Option (List ℕ) → Type 0
  IsMatch s none = Unit
  IsMatch s (some t) = (starts option t ≡ true) × (length t ≤ length s)

  IsMatch-cons : (c : ℕ) (s : List ℕ) (o : Option (List ℕ)) → IsMatch s o → IsMatch (c ∷ s) o
  IsMatch-cons c s none m = tt
  IsMatch-cons c s (some t) m = (m.0, omega (arith, m.1))

  walk_lem :
      (p : ℕ) (s : List ℕ)
      → (options_of option (others (p ∷ s)) ≡ chosen (walk option p s))
        × IsMatch s (walk option p s)
  unfolding walk others options_of
  walk_lem p [] = elim (Bool-cases (p == b'/')) [
    | inl h ↦ (rw h (options_of-skip [] [] starts-nil), tt)
    | inr h ↦ (rw h, tt)
  ]
  walk_lem p (c ∷ s) = elim (Bool-cases (p == b'/')) [
    | inl h ↦ elim (Bool-cases (starts option (c ∷ s))) [
      | inl k ↦ (rw (h, k) (options_of-take (c ∷ s) _ k), rw (h, k) (k, omega arith))
      | inr k ↦
          let (e, m) = walk_lem c s in
          (rw (h, k) (options_of-skip (c ∷ s) _ k ∙ e), rw (h, k) (IsMatch-cons c s _ m))
    ]
    | inr h ↦ let (e, m) = walk_lem c s in (rw h e, rw h (IsMatch-cons c s _ m))
  ]

  option_start_lem :
      (s : List ℕ)
      → (options_of option (parts s) ≡ chosen (option_start option s))
        × IsMatch s (option_start option s)
  unfolding option_start parts others
  option_start_lem [] = (options_of-skip [] [] starts-nil ∙ options_of_nil, tt)
    where
      options_of_nil : options_of option [] ≡ []
      options_of_nil = unfold options_of in refl
  option_start_lem (c ∷ s) = elim (Bool-cases (starts option (c ∷ s))) [
    | inl k ↦ (rw k (options_of-take (c ∷ s) _ k), rw k (k, omega arith))
    | inr k ↦
        let (e, m) = walk_lem c s in
        (rw k (options_of-skip (c ∷ s) _ k ∙ e), rw k (IsMatch-cons c s _ m))
  ]

  parts-slash :
      (c : ℕ) (t : List ℕ)
      → (c == b'/') ≡ true
      → options_of option (before_separator (c ∷ t) ∷ others (c ∷ t))
        ≡ options_of option (before_separator t ∷ others t)
  unfolding before_separator others
  parts-slash c t h = rw h (options_of-skip [] _ starts-nil)

  -- What follows the match has the options behind it.
  options_of-from_separator :
      (t : List ℕ) → options_of option (parts (from_separator t)) ≡ options_of option (others t)
  unfolding parts from_separator others
  options_of-from_separator [] = options_of-skip [] [] starts-nil
  options_of-from_separator (c ∷ t) = elim (Bool-cases (c == b'/')) [
    | inl h ↦ rw h (parts-slash c t h)
    | inr h ↦ rw h (options_of-from_separator t)
  ]

length-from_separator : (t : List ℕ) → length (from_separator t) ≤ length t
unfolding from_separator
length-from_separator [] = omega arith
length-from_separator (c ∷ t) = ground (arith, length-from_separator t)

-- The rest behind a match is shorter than the match.
from_separator-shorter :
    (option t : List ℕ)
    → IsName option
    → starts option t ≡ true
    → length (from_separator t) < length t
unfolding starts from_separator
from_separator-shorter [] t n h = absurd (omega (arith, n.size))
from_separator-shorter (o ∷ option) [] n h = ground arith
from_separator-shorter (o ∷ option) (c ∷ t) n h = elim (Bool-cases (c == b'/')) [
  | inl k ↦
      let e : starts (o ∷ option) (c ∷ t) ≡ false = rw (to_lower_slash o c k n.whole.0) in
      ground (arith, e, h)
  | inr k ↦ rw k (omega (arith, length-from_separator t))
]

-- one call, when the call behind the match is right
find_option_step :
    (fuel : ℕ) (option s : List ℕ) (o : Option (List ℕ))
    → IsName option
    → length s < suc fuel
    → option_start option s ≡ o
    → ((t : List ℕ)
        → length t < fuel
        → find_option fuel option t ≡ answer (options_of option (parts t)))
    → find_option (suc fuel) option s ≡ answer (options_of option (parts s))
unfolding find_option answer
find_option_step fuel option s none n l h behind =
    let e : options_of option (parts s) ≡ [] =
      (option_start_lem option n s).0 ∙ ap (chosen option n) h in
    elim (Bool-cases (ltb (length s) 5)) [
      | inl b ↦ rw (e, find_option, b)
      | inr b ↦ rw (e, find_option, b, h)
    ]
find_option_step fuel option s (some t) n l h behind =
    let (e, m) = option_start_lem option n s in
    let e' : options_of option (parts s) ≡ before_separator t ∷ options_of option (others t) =
      e ∙ ap (chosen option n) h in
    let m' : IsMatch option n s (some t) = subst (IsMatch option n s) h m in
    let rest =
      behind (from_separator t) (omega (arith, l, m'.1, from_separator-shorter option t n m'.0)) in
    let long : ltb (length s) 5 ≡ false =
      le→ltb_not 5 (length s) (omega (arith, n.size, m'.1, starts-length option t m'.0)) in
    rw (e', find_option, long, h, rest, options_of-from_separator option n t)
      (unless_repeated_lem _ _)

-- On fuel beyond the length of the text, the search for an option returns, and what it returns is
-- read off the parts of the text between the separators that are the option: nothing if there is
-- none, the first one if their number is odd, and the error of a repeated option if it is even.
pub find_option-parts :
    (fuel : ℕ) (option s : List ℕ)
    → IsName option
    → length s < fuel
    → find_option fuel option s ≡ answer (options_of option (parts s))
find_option-parts zero option s n l = absurd (omega arith)
find_option-parts (suc fuel) option s n l =
    find_option_step fuel option s (option_start option s) n l refl
      (λ t k. find_option-parts fuel option t n k)
