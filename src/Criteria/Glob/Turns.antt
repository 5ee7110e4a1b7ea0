-- ===== src/Criteria/Glob/Turns.antt =====
-- What every turn of the loop keeps: the pattern and the name that are left, together with the stack,
-- decide whether the whole name matches.
use ltfs.Prelude.{
  ℕ, ◌≡◌, refl, sym, subst, ◌∙◌, Bool, true, false, ◌&&◌, ◌||◌, Option, none, some, List, [], ◌∷◌,
  arith, Bool-cases, inl, inr,
}
use ltfs.Criteria.Glob.{
  is_asterisk, accepts, Position, State, Turn, done, next, push, pop, next_char, backtrack,
  try_char,
}
use ltfs.Criteria.Glob.Reference.{
  some_rest, one_char, glob, glob-char, some_rest-char, some_rest-later,
}

-- what a position on the stack is worth: its asterisk takes one more character
abbrev pub score : Position → Bool
score e = some_rest (glob e.cr) (next_char e.fi)

abbrev pub Begins : List (List ℕ) → Type 0
Begins [] = ⊥
Begins (p ∷ cr) = Unit

-- A position of the stack that leads to a match is right, where `answer` is the answer of the call.
pub record IsSound (answer : Bool) (e : Position) : Type 0 where
  pub pattern : Begins e.cr
  pub right : score e ≡ true → answer ≡ true

abbrev pub AllSound : Bool → List Position → Type 0
AllSound answer [] = Unit
AllSound answer (e ∷ stack) = IsSound answer e × AllSound answer stack

abbrev pub top : List Position → Option Position
top [] = none
top (base ∷ stack) = some (pop base stack).0

-- Without an asterisk in front, the answer is the one of what is left, or of the top of the stack;
-- and an asterisk that comes next makes the top needless.
abbrev pub Covered : Bool → List (List ℕ) → List (List ℕ) → Option Position → Type 0
Covered answer cr fi none = glob cr fi ≡ answer
Covered answer cr fi (some e) =
    ((glob cr fi || score e) ≡ answer) × (score e ≡ true → some_rest (glob cr) fi ≡ true)

abbrev pub IsCurrent : Bool → Bool → List (List ℕ) → List (List ℕ) → List Position → Type 0
IsCurrent answer true cr fi stack = Begins cr × (some_rest (glob cr) fi ≡ answer)
IsCurrent answer false cr fi stack = Covered answer cr fi (top stack)

pub record IsRight (answer : Bool) (st : State) : Type 0 where
  pub sound : AllSound answer st.stack
  pub current : IsCurrent answer st.have_asterisk st.cr st.fi st.stack

abbrev pub IsRightTurn : Bool → Turn → Type 0
IsRightTurn answer (done match) = match ≡ answer
IsRightTurn answer (next st) = IsRight answer st

pop-IsSound :
    (answer : Bool) (e : Position) (stack : List Position)
    → IsSound answer e
    → AllSound answer stack
    → IsSound answer (pop e stack).0 × AllSound answer (pop e stack).1
unfolding pop
pop-IsSound answer e [] h a = (h, tt)
pop-IsSound answer e (d ∷ stack) h a =
    let (i, r) = pop-IsSound answer d stack a.0 a.1 in (i, (h, r))

-- What is left does not match: the answer is the one of the top.
abbrev pub Failed : Bool → Option Position → Type 0
Failed answer none = answer ≡ false
Failed answer (some e) = score e ≡ answer

pub backtrack-IsRight :
    (answer : Bool) (stack : List Position)
    → AllSound answer stack
    → Failed answer (top stack)
    → IsRightTurn answer (backtrack stack)
unfolding backtrack
backtrack-IsRight answer [] a f = sym f
backtrack-IsRight answer (base ∷ stack) a f =
    let (h, r) = pop-IsSound answer base stack a.0 a.1 in
    record { sound = r; current = (h.pattern, f) }

-- No position is worth anything, if the answer is no.
Failed-AllSound :
    (answer : Bool) (stack : List Position)
    → AllSound answer stack
    → answer ≡ false
    → Failed answer (top stack)
Failed-AllSound answer [] a f = f
Failed-AllSound answer (base ∷ stack) a f =
    let h = (pop-IsSound answer base stack a.0 a.1).0.right in ground (arith, h, f)

pub Failed-Covered :
    (answer : Bool) (cr fi : List (List ℕ)) (o : Option Position)
    → Covered answer cr fi o
    → glob cr fi ≡ false
    → Failed answer o
Failed-Covered answer cr fi none c f = sym c ∙ f
Failed-Covered answer cr fi (some e) c f = ground (arith, c.0, f)

push-AllSound :
    (answer : Bool) (stack : List Position) (e : Position)
    → AllSound answer stack
    → IsSound answer e
    → AllSound answer (push stack e)
unfolding push
push-AllSound answer [] e a h = (h, tt)
push-AllSound answer (base ∷ stack) e a h = (a.0, (h, tt))

top-push : (stack : List Position) (e : Position) → top (push stack e) ≡ some e
unfolding push pop
top-push [] e = refl
top-push (base ∷ stack) e = refl

some_rest-cons :
    (test : List (List ℕ) → Bool) (x : List ℕ) (fi : List (List ℕ))
    → some_rest test (x ∷ fi) ≡ (test (x ∷ fi) || some_rest test fi)
unfolding some_rest
some_rest-cons test x fi = refl

some_rest-nil : (test : List (List ℕ) → Bool) → some_rest test [] ≡ test []
unfolding some_rest
some_rest-nil test = refl

glob-char_nil : (p : List ℕ) (cr : List (List ℕ)) → is_asterisk p ≡ false → glob (p ∷ cr) [] ≡ false
unfolding one_char
glob-char_nil p cr h = glob-char p cr [] h

glob-char_cons :
    (p : List ℕ) (cr : List (List ℕ)) (x : List ℕ) (fi : List (List ℕ))
    → is_asterisk p ≡ false
    → glob (p ∷ cr) (x ∷ fi) ≡ (accepts p x && glob cr fi)
unfolding one_char
glob-char_cons p cr x fi h = glob-char p cr (x ∷ fi) h

module _ (answer : Bool) (p : List ℕ) (cr : List (List ℕ)) (char : is_asterisk p ≡ false)
    (stack : List Position) (sound : AllSound answer stack) where
  -- a character behind an asterisk
  pushed :
      (x : List ℕ) (fi : List (List ℕ))
      → some_rest (glob (p ∷ cr)) (x ∷ fi) ≡ answer
      → accepts p x ≡ true
      → IsRight answer (record {
        cr = cr;
        fi = fi;
        have_asterisk = false;
        stack = push stack (record { cr = p ∷ cr; fi = x ∷ fi });
      })
  unfolding next_char
  pushed x fi c a =
      let e : Position = record { cr = p ∷ cr; fi = x ∷ fi } in
      let both : (glob cr fi || some_rest (glob (p ∷ cr)) fi) ≡ answer =
        ground (arith, c, a, some_rest-cons (glob (p ∷ cr)) x fi, glob-char_cons p cr x fi char) in
      let e-IsSound : IsSound answer e = record {
        pattern = tt;
        right = λ h. sym c ∙ some_rest-later (glob (p ∷ cr)) x fi h;
      } in
      let covered : Covered answer cr fi (some e) =
        (both, λ h. some_rest-char p cr x fi char (some_rest-later (glob (p ∷ cr)) x fi h)) in
      record {
        sound = push-AllSound answer stack e sound e-IsSound;
        current = subst (Covered answer cr fi) (sym (top-push stack e)) covered;
      }

  pub try_char-asterisk :
      (fi : List (List ℕ))
      → some_rest (glob (p ∷ cr)) fi ≡ answer
      → IsRightTurn answer (try_char true (p ∷ cr) fi true stack)
  unfolding try_char
  try_char-asterisk [] c = backtrack-IsRight answer stack sound (
      Failed-AllSound answer stack sound
        (sym c ∙ some_rest-nil (glob (p ∷ cr)) ∙ glob-char_nil p cr char))
  try_char-asterisk (x ∷ fi) c = elim (Bool-cases (accepts p x)) [
    | inl a ↦ rw (try_char, a) (pushed x fi c a)
    | inr a ↦
        rw (try_char, a)
          (record {
            sound = sound;
            current = (
              tt,
              ground
                  (arith, c, a, some_rest-cons (glob (p ∷ cr)) x fi, glob-char_cons p cr x fi char),
            );
          })
  ]

  accepted :
      (x : List ℕ) (fi : List (List ℕ)) (o : Option Position)
      → Covered answer (p ∷ cr) (x ∷ fi) o
      → accepts p x ≡ true
      → Covered answer cr fi o
  accepted x fi none c a = ground (arith, c, a, glob-char_cons p cr x fi char)
  accepted x fi (some e) c a = (
    ground (arith, c.0, a, glob-char_cons p cr x fi char),
    λ h. some_rest-char p cr x fi char (c.1 h),
  )

  pub try_char-char :
      (fi : List (List ℕ))
      → Covered answer (p ∷ cr) fi (top stack)
      → IsRightTurn answer (try_char true (p ∷ cr) fi false stack)
  unfolding try_char
  try_char-char [] c =
      backtrack-IsRight answer stack sound
        (Failed-Covered answer (p ∷ cr) [] (top stack) c (glob-char_nil p cr char))
  try_char-char (x ∷ fi) c = elim (Bool-cases (accepts p x)) [
    | inl a ↦ rw (try_char, a) (record { sound = sound; current = accepted x fi (top stack) c a })
    | inr a ↦
        rw (try_char, a)
          (backtrack-IsRight answer stack sound (
            Failed-Covered answer (p ∷ cr) (x ∷ fi) (top stack) c
              (glob-char_cons p cr x fi char ∙ rw a)))
  ]
