-- ===== src/Criteria/Glob/Reference.antt =====
-- What it is for a name to match a pattern, by recursion on the pattern, and its laws.
use ltfs.Prelude.{
  ℕ, ◌≡◌, refl, sym, ◌∙◌, Bool, true, false, ◌&&◌, ◌||◌, Option, none, some, List, [], ◌∷◌,
  if◌then◌else◌, arith, Bool-cases, inl, inr,
}
use ltfs.Criteria.Glob.{is_asterisk, accepts, skip_asterisks}

-- a part of a name from some place on passes a test
unfoldable pub some_rest : (List (List ℕ) → Bool) → List (List ℕ) → Bool
some_rest test [] = test []
some_rest test (x ∷ fi) = test (x ∷ fi) || some_rest test fi

-- the first character is accepted, and the rest passes a test
unfoldable pub one_char : List ℕ → (List (List ℕ) → Bool) → List (List ℕ) → Bool
one_char p test [] = false
one_char p test (x ∷ fi) = accepts p x && test fi

-- An asterisk stands for any characters, a question mark for any one, another for itself.
unfoldable pub glob : List (List ℕ) → List (List ℕ) → Bool
glob [] [] = true
glob [] (x ∷ fi) = false
glob (p ∷ cr) fi =
    let test = glob cr in if is_asterisk p then some_rest test fi else one_char p test fi

-- a pattern behind an asterisk, or without one in front
unfoldable pub value : List (List ℕ) → Bool → List (List ℕ) → Bool
value cr true fi = some_rest (glob cr) fi
value cr false fi = glob cr fi

some_rest-end :
    (test : List (List ℕ) → Bool) (fi : List (List ℕ)) → test [] ≡ true → some_rest test fi ≡ true
unfolding some_rest
some_rest-end test [] h = h
some_rest-end test (x ∷ fi) h = ground (arith, some_rest-end test fi h)

some_rest-twice :
    (test : List (List ℕ) → Bool) (fi : List (List ℕ))
    → some_rest (some_rest test) fi ≡ some_rest test fi
unfolding some_rest
some_rest-twice test [] = refl
some_rest-twice test (x ∷ fi) = ground (arith, some_rest-twice test fi)

some_rest-ap :
    (test test' : List (List ℕ) → Bool) (fi : List (List ℕ))
    → ((f : List (List ℕ)) → test f ≡ test' f)
    → some_rest test fi ≡ some_rest test' fi
unfolding some_rest
some_rest-ap test test' [] h = h []
some_rest-ap test test' (x ∷ fi) h = rw (h (x ∷ fi), some_rest-ap test test' fi h)

pub glob-asterisk :
    (p : List ℕ) (cr fi : List (List ℕ))
    → is_asterisk p ≡ true
    → glob (p ∷ cr) fi ≡ some_rest (glob cr) fi
unfolding glob
glob-asterisk p cr fi h = rw h

pub glob-char :
    (p : List ℕ) (cr fi : List (List ℕ))
    → is_asterisk p ≡ false
    → glob (p ∷ cr) fi ≡ one_char p (glob cr) fi
unfolding glob
glob-char p cr fi h = rw h

value-asterisk :
    (p : List ℕ) (cr fi : List (List ℕ)) (have_asterisk : Bool)
    → is_asterisk p ≡ true
    → value (p ∷ cr) have_asterisk fi ≡ some_rest (glob cr) fi
unfolding value
value-asterisk p cr fi true h =
    some_rest-ap (glob (p ∷ cr)) (some_rest (glob cr)) fi (λ f. glob-asterisk p cr f h)
    ∙ some_rest-twice (glob cr) fi
value-asterisk p cr fi false h = glob-asterisk p cr fi h

-- what the skipping of asterisks leaves of a pattern, as a value
abbrev pub skipped : Option (List (List ℕ) × Bool) → List (List ℕ) → Bool
skipped none fi = true
skipped (some (cr, have_asterisk)) fi = value cr have_asterisk fi

pub glob-nil : glob [] [] ≡ true
unfolding glob
glob-nil = refl

-- Skipping asterisks behind an asterisk keeps the value of the pattern.
pub some_rest-skipped :
    (cr fi : List (List ℕ)) → some_rest (glob cr) fi ≡ skipped (skip_asterisks cr true) fi
unfolding skip_asterisks value
some_rest-skipped [] fi = some_rest-end (glob []) fi glob-nil
some_rest-skipped (p ∷ cr) fi = elim (Bool-cases (is_asterisk p)) [
  | inl h ↦ rw h (value-asterisk p cr fi true h ∙ some_rest-skipped cr fi)
  | inr h ↦ rw h
]

-- An asterisk in front has the value of any rest.
pub glob-some_rest :
    (p : List ℕ) (cr fi : List (List ℕ))
    → is_asterisk p ≡ true
    → some_rest (glob (p ∷ cr)) fi ≡ glob (p ∷ cr) fi
unfolding value
glob-some_rest p cr fi h = value-asterisk p cr fi true h ∙ sym (glob-asterisk p cr fi h)

-- what is left of a pattern behind an asterisk begins with another character
abbrev pub Skips : Option (List (List ℕ) × Bool) → Type 0
Skips none = Unit
Skips (some ([], have_asterisk)) = ⊥
Skips (some (p ∷ cr, true)) = is_asterisk p ≡ false
Skips (some (p ∷ cr, false)) = ⊥

pub skip_asterisks-Skips : (cr : List (List ℕ)) → Skips (skip_asterisks cr true)
unfolding skip_asterisks
skip_asterisks-Skips [] = tt
skip_asterisks-Skips (p ∷ cr) = elim (Bool-cases (is_asterisk p)) [
  | inl h ↦ rw (skip_asterisks, h) (skip_asterisks-Skips cr)
  | inr h ↦ rw (skip_asterisks, h) h
]

pub some_rest-here :
    (test : List (List ℕ) → Bool) (fi : List (List ℕ)) → test fi ≡ true → some_rest test fi ≡ true
unfolding some_rest
some_rest-here test [] h = h
some_rest-here test (x ∷ fi) h = ground (arith, h)

-- A rest that matches with one more character in front matches behind it.
pub some_rest-char :
    (p : List ℕ) (cr : List (List ℕ)) (x : List ℕ) (fi : List (List ℕ))
    → is_asterisk p ≡ false
    → some_rest (glob (p ∷ cr)) (x ∷ fi) ≡ true
    → some_rest (glob cr) fi ≡ true
unfolding some_rest one_char
some_rest-char p cr x [] h k = ground (arith, k, glob-char p cr (x ∷ []) h, glob-char p cr [] h)
some_rest-char p cr x (y ∷ fi) h k = ground (
  arith,
  k,
  glob-char p cr (x ∷ y ∷ fi) h,
  some_rest-here (glob cr) (y ∷ fi),
  some_rest-char p cr y fi h,
)

pub some_rest-later :
    (test : List (List ℕ) → Bool) (x : List ℕ) (fi : List (List ℕ))
    → some_rest test fi ≡ true
    → some_rest test (x ∷ fi) ≡ true
unfolding some_rest
some_rest-later test x fi h = ground (arith, h)
