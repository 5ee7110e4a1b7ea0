-- ===== src/Criteria/Glob/Lower.antt =====
-- What each turn makes less: the name of the base, the name of the element on top of it, or the name
-- that is left.
use ltfs.Prelude.{
  ℕ, suc, ◌-◌, ◌≤◌, ◌<◌, ◌≡◌, refl, Bool, true, false, Option, none, some, List, [], ◌∷◌, arith,
  Bool-cases, inl, inr, length,
}
use ltfs.Criteria.Glob.{
  accepts, skip_asterisks, Position, State, Turn, done, next, push, pop, next_char, backtrack,
  try_char, turn,
}

-- The names that are left: of the base, of the element on top of it, and of the state, each within a
-- bound. An element was pushed before the state came to where it is.
abbrev pub Fits : ℕ → ℕ → ℕ → List (List ℕ) → List Position → Type 0
Fits b t k fi [] = (length fi ≤ b) × (length fi ≤ t) × (length fi ≤ k)
Fits b t k fi (base ∷ []) =
    (length base.fi ≤ b) × (length fi ≤ t) × (length fi ≤ k) × (length fi < length base.fi)
Fits b t k fi (base ∷ e ∷ []) =
    (length base.fi ≤ b)
    × (length e.fi ≤ t)
    × (length fi ≤ k)
    × (length fi < length e.fi)
    × (length e.fi < length base.fi)
Fits b t k fi (base ∷ d ∷ e ∷ stack) = ⊥

-- a state with less left: of its name, of the top, or of the base
pub data Lower (n b t k : ℕ) (st : State) : Type 0 where
  less_left : (k' : ℕ) → suc k' ≡ k → Fits b t k' st.fi st.stack → Lower n b t k st
  less_top : (t' : ℕ) → suc t' ≡ t → Fits b t' n st.fi st.stack → Lower n b t k st
  less_base : (b' : ℕ) → suc b' ≡ b → Fits b' n n st.fi st.stack → Lower n b t k st

abbrev pub LowerTurn : ℕ → ℕ → ℕ → ℕ → Turn → Type 0
LowerTurn n b t k (done match) = Unit
LowerTurn n b t k (next st) = Lower n b t k st

length-next_char : (fi : List (List ℕ)) → 1 ≤ length fi → suc (length (next_char fi)) ≡ length fi
unfolding next_char
length-next_char [] h = absurd (omega arith)
length-next_char (x ∷ fi) h = refl

module _ (n b t k : ℕ) (base_bound : b ≤ n) (top_bound : t ≤ n) where
  backtrack-Lower :
      (fi : List (List ℕ)) (stack : List Position)
      → Fits b t k fi stack
      → LowerTurn n b t k (backtrack stack)
  unfolding backtrack pop
  backtrack-Lower fi [] f = tt
  backtrack-Lower fi (base ∷ []) f =
      let l = length-next_char base.fi (omega (arith, f)) in
      less_base (b - 1) (omega (arith, f)) (omega (arith, f, l))
  backtrack-Lower fi (base ∷ e ∷ []) f =
      let l = length-next_char e.fi (omega (arith, f)) in
      less_top (t - 1) (omega (arith, f)) (omega (arith, f, l))
  backtrack-Lower fi (base ∷ d ∷ e ∷ stack) f = absurd f

  Fits-char :
      (x : List ℕ) (fi : List (List ℕ)) (stack : List Position)
      → Fits b t k (x ∷ fi) stack
      → (suc (k - 1) ≡ k) × Fits b t (k - 1) fi stack
  Fits-char x fi [] f = omega (arith, f)
  Fits-char x fi (base ∷ []) f = omega (arith, f)
  Fits-char x fi (base ∷ e ∷ []) f = omega (arith, f)
  Fits-char x fi (base ∷ d ∷ e ∷ stack) f = absurd f

  Fits-push :
      (cr : List (List ℕ)) (x : List ℕ) (fi : List (List ℕ)) (stack : List Position)
      → Fits b t k (x ∷ fi) stack
      → (suc (k - 1) ≡ k) × Fits b t (k - 1) fi (push stack (record { cr = cr; fi = x ∷ fi }))
  unfolding push
  Fits-push cr x fi [] f = omega (arith, f)
  Fits-push cr x fi (base ∷ []) f = omega (arith, f)
  Fits-push cr x fi (base ∷ e ∷ []) f = omega (arith, f)
  Fits-push cr x fi (base ∷ d ∷ e ∷ stack) f = absurd f

  try_char-Lower :
      (cr fi : List (List ℕ)) (have_asterisk : Bool) (stack : List Position)
      → Fits b t k fi stack
      → LowerTurn n b t k (try_char true cr fi have_asterisk stack)
  unfolding try_char
  try_char-Lower [] fi have_asterisk stack f = backtrack-Lower fi stack f
  try_char-Lower (p ∷ cr) [] have_asterisk stack f = backtrack-Lower [] stack f
  try_char-Lower (p ∷ cr) (x ∷ fi) true stack f = elim (Bool-cases (accepts p x)) [
    | inl a ↦
        let (e, g) = Fits-push (p ∷ cr) x fi stack f in rw (try_char, a) (less_left (k - 1) e g)
    | inr a ↦ let (e, g) = Fits-char x fi stack f in rw (try_char, a) (less_left (k - 1) e g)
  ]
  try_char-Lower (p ∷ cr) (x ∷ fi) false stack f = elim (Bool-cases (accepts p x)) [
    | inl a ↦ let (e, g) = Fits-char x fi stack f in rw (try_char, a) (less_left (k - 1) e g)
    | inr a ↦ rw (try_char, a) (backtrack-Lower (x ∷ fi) stack f)
  ]

  skipped-Lower :
      (o : Option (List (List ℕ) × Bool)) (fi : List (List ℕ)) (stack : List Position)
      → Fits b t k fi stack
      → LowerTurn n b t k (elim o [
        | none ↦ done true
        | some (rest, have_asterisk) ↦ try_char true rest fi have_asterisk stack
      ])
  skipped-Lower none fi stack f = tt
  skipped-Lower (some (rest, have_asterisk)) fi stack f =
      try_char-Lower rest fi have_asterisk stack f

  turn-Lower_parts :
      (cr fi : List (List ℕ)) (have_asterisk : Bool) (stack : List Position)
      → Fits b t k fi stack
      → LowerTurn n b t k
          (turn true (record { cr = cr; fi = fi; have_asterisk = have_asterisk; stack = stack }))
  unfolding turn
  turn-Lower_parts [] [] have_asterisk stack f = tt
  turn-Lower_parts [] (x ∷ fi) have_asterisk stack f = backtrack-Lower (x ∷ fi) stack f
  turn-Lower_parts (p ∷ cr) fi have_asterisk stack f =
      skipped-Lower (skip_asterisks (p ∷ cr) have_asterisk) fi stack f

  pub turn-Lower : (st : State) → Fits b t k st.fi st.stack → LowerTurn n b t k (turn true st)
  turn-Lower st f = turn-Lower_parts st.cr st.fi st.have_asterisk st.stack f
