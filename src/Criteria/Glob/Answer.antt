-- ===== src/Criteria/Glob/Answer.antt =====
-- That every turn of the loop keeps the answer.
use ltfs.Prelude.{
  ℕ, ◌≡◌, refl, sym, ◌∙◌, Bool, true, false, Option, none, some, List, [], ◌∷◌, arith, Bool-cases,
  inl, inr,
}
use ltfs.Criteria.Glob.{is_asterisk, skip_asterisks, Position, State, Turn, done, try_char, turn}
use ltfs.Criteria.Glob.Reference.{
  some_rest, glob, glob-asterisk, glob-nil, skipped, value, Skips, some_rest-skipped,
  glob-some_rest, skip_asterisks-Skips,
}
use ltfs.Criteria.Glob.Turns.{
  AllSound, top, Covered, IsCurrent, IsRight, IsRightTurn, backtrack-IsRight, Failed-Covered,
  try_char-asterisk, try_char-char,
}

-- the turn behind an asterisk, by what the asterisks leave
abbrev behind : Option (List (List ℕ) × Bool) → List (List ℕ) → List Position → Turn
behind o fi stack = elim o [
  | none ↦ done true
  | some (rest, have_asterisk) ↦ try_char true rest fi have_asterisk stack
]

behind-IsRight :
    (answer : Bool) (o : Option (List (List ℕ) × Bool)) (fi : List (List ℕ)) (stack : List Position)
    → Skips o
    → skipped o fi ≡ answer
    → AllSound answer stack
    → IsRightTurn answer (behind o fi stack)
unfolding value
behind-IsRight answer none fi stack k c a = c
behind-IsRight answer (some ([], have_asterisk)) fi stack k c a = absurd k
behind-IsRight answer (some (p ∷ cr, true)) fi stack k c a =
    try_char-asterisk answer p cr k stack a fi c
behind-IsRight answer (some (p ∷ cr, false)) fi stack k c a = absurd k

-- An asterisk that comes next has the answer, whatever the stack holds.
asterisk-answer :
    (answer : Bool) (p : List ℕ) (cr fi : List (List ℕ)) (o : Option Position)
    → is_asterisk p ≡ true
    → Covered answer (p ∷ cr) fi o
    → some_rest (glob cr) fi ≡ answer
asterisk-answer answer p cr fi none h c = sym (glob-asterisk p cr fi h) ∙ c
asterisk-answer answer p cr fi (some e) h c =
    ground (arith, c.0, c.1, glob-some_rest p cr fi h, glob-asterisk p cr fi h)

glob-nil_cons : (x : List ℕ) (fi : List (List ℕ)) → glob [] (x ∷ fi) ≡ false
unfolding glob
glob-nil_cons x fi = refl

Covered-end : (answer : Bool) (o : Option Position) → Covered answer [] [] o → true ≡ answer
Covered-end answer none c = sym glob-nil ∙ c
Covered-end answer (some e) c = ground (arith, c.0, glob-nil)

-- Every turn keeps the answer.
turn-IsRight_parts :
    (answer : Bool) (cr fi : List (List ℕ)) (have_asterisk : Bool) (stack : List Position)
    → AllSound answer stack
    → IsCurrent answer have_asterisk cr fi stack
    → IsRightTurn answer
        (turn true (record { cr = cr; fi = fi; have_asterisk = have_asterisk; stack = stack }))
unfolding turn skip_asterisks
turn-IsRight_parts answer [] fi true stack a c = absurd c.0
turn-IsRight_parts answer [] [] false stack a c = Covered-end answer (top stack) c
turn-IsRight_parts answer [] (x ∷ fi) false stack a c =
    backtrack-IsRight answer stack a
      (Failed-Covered answer [] (x ∷ fi) (top stack) c (glob-nil_cons x fi))
turn-IsRight_parts answer (p ∷ cr) fi true stack a c =
    behind-IsRight answer (skip_asterisks (p ∷ cr) true) fi stack (skip_asterisks-Skips (p ∷ cr))
      (sym (some_rest-skipped (p ∷ cr) fi) ∙ c.1) a
turn-IsRight_parts answer (p ∷ cr) fi false stack a c = elim (Bool-cases (is_asterisk p)) [
  | inl h ↦
      rw (turn, skip_asterisks, h)
        (behind-IsRight answer (skip_asterisks cr true) fi stack (skip_asterisks-Skips cr)
          (sym (some_rest-skipped cr fi) ∙ asterisk-answer answer p cr fi (top stack) h c) a)
  | inr h ↦ rw (turn, skip_asterisks, h) (try_char-char answer p cr h stack a fi c)
]

pub turn-IsRight :
    (answer : Bool) (st : State) → IsRight answer st → IsRightTurn answer (turn true st)
turn-IsRight answer st r =
    turn-IsRight_parts answer st.cr st.fi st.have_asterisk st.stack r.sound r.current
