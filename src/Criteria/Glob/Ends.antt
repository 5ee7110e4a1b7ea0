-- ===== src/Criteria/Glob/Ends.antt =====
-- That the loop ends, with the answer of the reference.
use ltfs.Prelude.{
  ℕ, zero, suc, ◌≤◌, ◌≡◌, refl, subst, Bool, true, some, List, [], ◌∷◌, arith, length,
}
use ltfs.Criteria.Glob.{State, Turn, done, next, turn, match_loop, matches_name}
use ltfs.Criteria.Glob.Reference.{glob}
use ltfs.Criteria.Glob.Turns.{IsRight, IsRightTurn}
use ltfs.Criteria.Glob.Answer.{turn-IsRight}
use ltfs.Criteria.Glob.Lower.{Fits, Lower, less_left, less_top, less_base, LowerTurn, turn-Lower}

module _ (answer : Bool) (n : ℕ) where
  -- From some fuel on, the loop gives the answer.
  abbrev Ends : State → Type 0
  Ends st = (fuel : ℕ) × ((m : ℕ) → fuel ≤ m → match_loop m true st ≡ some answer)

  abbrev AllEnd : ℕ → ℕ → ℕ → Type 0
  AllEnd b t k = (st : State) → Fits b t k st.fi st.stack → IsRight answer st → Ends st

  Ends-turn :
      (st : State) (τ : Turn)
      → turn true st ≡ τ
      → IsRightTurn answer τ
      → ((st' : State) → τ ≡ next st' → IsRight answer st' → Ends st')
      → Ends st
  unfolding match_loop
  Ends-turn st (done match) e r rest = (1, ended)
    where
      ended : (m : ℕ) → 1 ≤ m → match_loop m true st ≡ some answer
      ended zero h = absurd (omega arith)
      ended (suc m) h = rw (match_loop, e, r)
  Ends-turn st (next st') e r rest = let (fuel, f) = rest st' refl r in (suc fuel, goes_on fuel f)
    where
      goes_on :
          (fuel : ℕ)
          → ((m : ℕ) → fuel ≤ m → match_loop m true st' ≡ some answer)
          → (m : ℕ) → suc fuel ≤ m
          → match_loop m true st ≡ some answer
      goes_on fuel f zero h = absurd (omega arith)
      goes_on fuel f (suc m) h = rw (match_loop, e) (f m (omega arith))

  -- one turn, if the loop ends from every state with less left
  AllEnd-turn :
      (b t k : ℕ)
      → b ≤ n
      → t ≤ n
      → ((k' : ℕ) → suc k' ≡ k → AllEnd b t k')
      → ((t' : ℕ) → suc t' ≡ t → AllEnd b t' n)
      → ((b' : ℕ) → suc b' ≡ b → AllEnd b' n n)
      → AllEnd b t k
  AllEnd-turn b t k bn tn left top base st f r =
      Ends-turn st (turn true st) refl (turn-IsRight answer st r)
        (λ st' e r'. by_less st' (subst (LowerTurn n b t k) e (turn-Lower n b t k bn tn st f)) r')
    where
      by_less : (st' : State) → Lower n b t k st' → IsRight answer st' → Ends st'
      by_less st' (less_left k' e g) r' = left k' e st' g r'
      by_less st' (less_top t' e g) r' = top t' e st' g r'
      by_less st' (less_base b' e g) r' = base b' e st' g r'

  all_left :
      (b t : ℕ)
      → b ≤ n
      → t ≤ n
      → ((t' : ℕ) → suc t' ≡ t → AllEnd b t' n)
      → ((b' : ℕ) → suc b' ≡ b → AllEnd b' n n)
      → (k : ℕ) → AllEnd b t k
  all_left b t bn tn top base zero =
      AllEnd-turn b t zero bn tn (λ k' e. absurd (omega arith)) top base
  all_left b t bn tn top base (suc k) =
      AllEnd-turn b t (suc k) bn tn
        (λ k' e. subst (AllEnd b t) (omega arith) (all_left b t bn tn top base k)) top base

  all_top :
      (b : ℕ)
      → b ≤ n
      → ((b' : ℕ) → suc b' ≡ b → AllEnd b' n n)
      → (t : ℕ) → t ≤ n
      → (k : ℕ) → AllEnd b t k
  all_top b bn base zero tn = all_left b zero bn tn (λ t' e. absurd (omega arith)) base
  all_top b bn base (suc t) tn =
      all_left b (suc t) bn tn
        (λ t' e. subst (λ i. AllEnd b i n) (omega arith) (all_top b bn base t (omega arith) n)) base

  all_base : (b : ℕ) → b ≤ n → AllEnd b n n
  all_base zero bn = all_top zero bn (λ b' e. absurd (omega arith)) n (omega arith) n
  all_base (suc b) bn =
      all_top (suc b) bn
        (λ b' e. subst (λ i. AllEnd i n n) (omega arith) (all_base b (omega arith))) n (omega arith)
        n

-- With memory for its stack, the match of a name against a pattern ends, and from some fuel on the
-- answer is whether the name matches by the reference: an asterisk stands for any characters, a
-- question mark for any one, and another character for itself.
pub matches_name-glob :
    (cr fi : List (List ℕ))
    → (fuel : ℕ) × ((m : ℕ) → fuel ≤ m → matches_name m true cr fi ≡ some (glob cr fi))
unfolding matches_name glob
matches_name-glob [] [] = (0, λ m h. refl)
matches_name-glob [] (x ∷ fi) = (0, λ m h. refl)
matches_name-glob (p ∷ cr) fi =
    all_base (glob (p ∷ cr) fi) (length fi) (length fi) (omega arith) _ (omega arith)
      (record { sound = tt; current = refl })
