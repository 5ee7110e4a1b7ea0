-- ===== src/Criteria/Glob.antt =====
-- libltfs/index_criteria.c: the match of a name against a pattern, `_matches_name_criteria_caseless`
-- with its stack. Both are lists of the characters that the break iterators of ICU cut them into.
pub mod Reference
pub mod Turns
pub mod Answer
pub mod Lower
pub mod Ends
use ltfs.Prelude.{
  ℕ, zero, suc, Bool, true, false, ◌&&◌, ◌||◌, Option, none, some, List, [], ◌∷◌, ◌==◌,
  if◌then◌else◌,
}

-- `_char_compare`: whether two characters have the same code units
unfoldable pub same : List ℕ → List ℕ → Bool
same [] [] = true
same [] (d ∷ y) = false
same (c ∷ x) [] = false
same (c ∷ x) (d ∷ y) = c == d && same x y

unfoldable pub is_asterisk : List ℕ → Bool
is_asterisk p = same p (0x2a ∷ [])

-- a character of the pattern that is no asterisk accepts a character of the name
unfoldable pub accepts : List ℕ → List ℕ → Bool
accepts p x = same p (0x3f ∷ []) || same p x

-- an element of the stack: what is left of the pattern and of the name
pub record Position : Type 0 where
  pub cr : List (List ℕ)
  pub fi : List (List ℕ)

-- The state of the loop. The list of the stack has the base first.
pub record State : Type 0 where
  pub cr : List (List ℕ)
  pub fi : List (List ℕ)
  pub have_asterisk : Bool
  pub stack : List Position

pub data Turn : Type 0 where
  done : Bool → Turn
  next : State → Turn

-- `_push_ustack`: the element follows the base, whatever followed it before
unfoldable pub push : List Position → Position → List Position
push [] e = e ∷ []
push (base ∷ elements) e = base ∷ e ∷ []

-- `_pop_ustack`: the last element, and the ones in front of it
unfoldable pub pop : Position → List Position → Position × List Position
pop base [] = (base, [])
pop base (e ∷ elements) = let popped = pop e elements in (popped.0, base ∷ popped.1)

-- `_next_char` on a name
unfoldable pub next_char : List (List ℕ) → List (List ℕ)
next_char [] = []
next_char (x ∷ fi) = fi

-- back to the top of the stack, if there is one
unfoldable pub backtrack : List Position → Turn
backtrack [] = done false
backtrack (base ∷ elements) =
    let popped = pop base elements in
    next (record {
      cr = popped.0.cr;
      fi = next_char popped.0.fi;
      have_asterisk = true;
      stack = popped.1;
    })

-- "Consume sequential asterisks": none accepts the name
unfoldable pub skip_asterisks : List (List ℕ) → Bool → Option (List (List ℕ) × Bool)
skip_asterisks [] have_asterisk = none
skip_asterisks (p ∷ cr) have_asterisk =
    let rest = skip_asterisks cr true in
    if is_asterisk p then rest else some (p ∷ cr, have_asterisk)

-- the part of the loop behind the asterisks
unfoldable pub try_char : Bool → List (List ℕ) → List (List ℕ) → Bool → List Position → Turn
try_char allocates [] fi have_asterisk stack = backtrack stack
try_char allocates (p ∷ cr) [] have_asterisk stack = backtrack stack
try_char allocates (p ∷ cr) (x ∷ fi) true stack =
    if accepts p x
    then (if allocates
        then next (record {
          cr = cr;
          fi = fi;
          have_asterisk = false;
          stack = push stack (record { cr = p ∷ cr; fi = x ∷ fi });
        })
        else done false)
    else next (record { cr = p ∷ cr; fi = fi; have_asterisk = true; stack = stack })
try_char allocates (p ∷ cr) (x ∷ fi) false stack =
    if accepts p x
    then next (record { cr = cr; fi = fi; have_asterisk = false; stack = stack })
    else backtrack stack

-- one round of the loop, or the test behind it
unfoldable pub turn : Bool → State → Turn
turn allocates st = elim st.cr [
  | [] ↦ elim st.fi [ [] ↦ done true | x ∷ fi ↦ backtrack st.stack ]
  | p ∷ cr ↦ elim (skip_asterisks (p ∷ cr) st.have_asterisk) [
    | none ↦ done true
    | some (rest, have_asterisk) ↦ try_char allocates rest st.fi have_asterisk st.stack
  ]
]

-- the loop, on fuel
unfoldable pub match_loop : ℕ → Bool → State → Option Bool
match_loop zero allocates st = none
match_loop (suc fuel) allocates st = elim (turn allocates st) [
  | done match ↦ some match
  | next st' ↦ match_loop fuel allocates st'
]

-- `_matches_name_criteria_caseless` on the characters of a pattern and a name
unfoldable pub matches_name : ℕ → Bool → List (List ℕ) → List (List ℕ) → Option Bool
matches_name fuel allocates [] [] = some true
matches_name fuel allocates [] (x ∷ fi) = some false
matches_name fuel allocates (p ∷ cr) fi =
    match_loop fuel allocates (record { cr = p ∷ cr; fi = fi; have_asterisk = false; stack = [] })
