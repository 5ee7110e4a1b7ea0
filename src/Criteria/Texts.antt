-- ===== src/Criteria/Texts.antt =====
-- The text of rules that name patterns and a size: its parts between the separators, and the test of
-- what follows each separator.
use ltfs.Prelude.{ℕ, ◌≡◌, refl, ap, true, false, List, [], ◌∷◌, ◌++◌, arith}
use ltfs.Criteria.{name_option, size_option, is_option, separators_valid, before_separator}
use ltfs.Criteria.Options.{others, parts, Whole, IsName}
use ltfs.Criteria.Names.{Plain, IsPattern, AllPatterns, joined}
use ltfs.Criteria.Sizes.{Scale, one, kilo, mega, giga, letter, digits, AllDigits}

pub name_option-IsName : IsName name_option
name_option-IsName = record {
  size = omega arith;
  whole = (refl, (refl, (refl, (refl, (refl, tt)))));
}

pub size_option-IsName : IsName size_option
size_option-IsName = record {
  size = omega arith;
  whole = (refl, (refl, (refl, (refl, (refl, tt)))));
}

-- two parts joined by a separator
pub before_separator-join : (s t : List ℕ) → Whole s → before_separator (s ++ (b'/' ∷ t)) ≡ s
unfolding before_separator
before_separator-join [] t w = refl
before_separator-join (c ∷ s) t w = rw w.0 (ap (◌∷◌ c) (before_separator-join s t w.1))

before_separator-Whole : (s : List ℕ) → Whole s → before_separator s ≡ s
unfolding before_separator
before_separator-Whole [] w = refl
before_separator-Whole (c ∷ s) w = rw w.0 (ap (◌∷◌ c) (before_separator-Whole s w.1))

pub others-join :
    (s t : List ℕ) → Whole s → others (s ++ (b'/' ∷ t)) ≡ before_separator t ∷ others t
unfolding others
others-join [] t w = refl
others-join (c ∷ s) t w = rw w.0 (others-join s t w.1)

others-Whole : (s : List ℕ) → Whole s → others s ≡ []
unfolding others
others-Whole [] w = refl
others-Whole (c ∷ s) w = rw w.0 (others-Whole s w.1)

pub parts-join : (s t : List ℕ) → Whole s → Whole t → parts (s ++ (b'/' ∷ t)) ≡ s ∷ t ∷ []
unfolding parts
parts-join s t w v =
    rw
      (before_separator-join s t w, others-join s t w, before_separator-Whole t v, others-Whole t v)

pub separators_valid-join :
    (s t : List ℕ)
    → Whole s
    → Whole t
    → is_option t ≡ true
    → separators_valid (s ++ (b'/' ∷ t)) ≡ true
unfolding separators_valid
separators_valid-join [] [] w v o = rw o
separators_valid-join [] (c ∷ t) w v o = rw o (separators_valid-Whole (c ∷ t) v)
  where
    separators_valid-Whole : (s : List ℕ) → Whole s → separators_valid s ≡ true
    separators_valid-Whole [] w = refl
    separators_valid-Whole (c ∷ s) w = rw w.0 (separators_valid-Whole s w.1)
separators_valid-join (c ∷ s) t w v o = rw w.0 (separators_valid-join s t w.1 v o)

-- The text of the rules: patterns and a size, in this order or the other one.
abbrev pub name_text : List ℕ → List (List ℕ) → List ℕ
name_text n ns = name_option ++ n ++ joined ns

abbrev pub size_text : List ℕ → Scale → List ℕ
size_text ds scale = size_option ++ digits ds ++ letter scale

pub Whole-append : (s t : List ℕ) → Whole s → Whole t → Whole (s ++ t)
Whole-append [] t w v = v
Whole-append (c ∷ s) t w v = (w.0, Whole-append s t w.1 v)

Plain-Whole : (n : List ℕ) → Plain n → Whole n
Plain-Whole [] p = tt
Plain-Whole (c ∷ n) p = (p.1, Plain-Whole n p.2)

pub IsPattern-Whole : (n : List ℕ) → IsPattern n → Whole n
IsPattern-Whole [] p = absurd p
IsPattern-Whole (c ∷ n) p = Plain-Whole (c ∷ n) p

pub joined-Whole : (ns : List (List ℕ)) → AllPatterns ns → Whole (joined ns)
joined-Whole [] a = tt
joined-Whole (n ∷ ns) a =
    (refl, Whole-append n (joined ns) (IsPattern-Whole n a.0) (joined-Whole ns a.1))

pub digits-Whole : (ds : List ℕ) → AllDigits ds → Whole (digits ds)
digits-Whole [] a = tt
digits-Whole (d ∷ ds) a = (let h = a.0 in ground arith, digits-Whole ds a.1)

pub letter-Whole : (scale : Scale) → Whole (letter scale)
letter-Whole one = tt
letter-Whole (kilo true) = (refl, tt)
letter-Whole (kilo false) = (refl, tt)
letter-Whole (mega true) = (refl, tt)
letter-Whole (mega false) = (refl, tt)
letter-Whole (giga true) = (refl, tt)
letter-Whole (giga false) = (refl, tt)
