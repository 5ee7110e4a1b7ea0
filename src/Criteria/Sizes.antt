-- ===== src/Criteria/Sizes.antt =====
-- What `index_criteria_parse_size` makes of a decimal number with a letter behind it.
use ltfs.Prelude.{
  ℕ, suc, ◌+◌, ◌-◌, ◌*◌, ◌%◌, ◌^◌, ◌<◌, ◌≡◌, refl, ap, ◌∙◌, Bool, true, false, some, List, [], ◌∷◌,
  ◌++◌, length, if◌then◌else◌, arith, min, append-nil,
}
use ltfs.Criteria.{is_alpha, is_digit, size_option}
use ltfs.Criteria.Rules.{
  adjacent, last_char, drop_last, multiplier, decimal, strtoull, number, parse_size,
}

-- the letter behind a number, small or big, and the factor that it stands for
pub data Scale : Type 0 where
  one : Scale
  kilo : Bool → Scale
  mega : Bool → Scale
  giga : Bool → Scale

abbrev pub letter : Scale → List ℕ
letter one = []
letter (kilo big) = (if big then b'K' else b'k') ∷ []
letter (mega big) = (if big then b'M' else b'm') ∷ []
letter (giga big) = (if big then b'G' else b'g') ∷ []

abbrev pub factor : Scale → ℕ
factor one = 1
factor (kilo big) = 2 ^ 10
factor (mega big) = 2 ^ 20
factor (giga big) = 2 ^ 30

-- the text of decimal digits, and the number that they stand for
abbrev pub digits : List ℕ → List ℕ
digits [] = []
digits (d ∷ ds) = (b'0' + d) ∷ digits ds

abbrev pub value : List ℕ → ℕ
value [] = 0
value (d ∷ ds) = d * 10 ^ length ds + value ds

abbrev pub AllDigits : List ℕ → Type 0
AllDigits [] = Unit
AllDigits (d ∷ ds) = (d < 10) × AllDigits ds

digit_lem : (d : ℕ) → d < 10 → (is_digit (b'0' + d) ≡ true) × (is_alpha (b'0' + d) ≡ false)
unfolding is_digit is_alpha
digit_lem d h = (ground arith, ground arith)

regroup : (n d p v : ℕ) → (n * 10 + d) * p + v ≡ n * (10 * p) + (d * p + v)
regroup n d p v = omega arith

pow_step : (k : ℕ) → 10 ^ suc k ≡ 10 * 10 ^ k
pow_step k = omega arith

decimal-digits :
    (ds : List ℕ) (n : ℕ) → AllDigits ds → decimal n (digits ds) ≡ n * 10 ^ length ds + value ds
unfolding decimal
decimal-digits [] n h = omega arith
decimal-digits (d ∷ ds) n h =
    let e : b'0' + d - b'0' ≡ d = omega arith in
    rw ((digit_lem d h.0).0, e)
      (decimal-digits ds (n * 10 + d) h.1
        ∙ rw (pow_step (length ds)) (regroup n d (10 ^ length ds) (value ds)))

adjacent-letter : (ds : List ℕ) (c : ℕ) → AllDigits ds → adjacent (digits ds ++ (c ∷ [])) ≡ false
unfolding adjacent
adjacent-letter [] c h = refl
adjacent-letter (d ∷ []) c h = rw (digit_lem d h.0).1
adjacent-letter (d ∷ e ∷ ds) c h = rw (digit_lem d h.0).1 (adjacent-letter (e ∷ ds) c h.1)

adjacent-digits : (ds : List ℕ) → AllDigits ds → adjacent (digits ds) ≡ false
unfolding adjacent
adjacent-digits [] h = refl
adjacent-digits (d ∷ []) h = refl
adjacent-digits (d ∷ e ∷ ds) h = rw (digit_lem d h.0).1 (adjacent-digits (e ∷ ds) h.1)

last_char-letter : (s : List ℕ) (before c : ℕ) → last_char before (s ++ (c ∷ [])) ≡ c
unfolding last_char
last_char-letter [] before c = refl
last_char-letter (d ∷ s) before c = last_char-letter s d c

drop_last-letter : (s : List ℕ) (c : ℕ) → drop_last (s ++ (c ∷ [])) ≡ s
unfolding drop_last
drop_last-letter [] c = refl
drop_last-letter (d ∷ []) c = refl
drop_last-letter (d ∷ e ∷ s) c = ap (◌∷◌ d) (drop_last-letter (e ∷ s) c)

last_char-digits :
    (ds : List ℕ) (before : ℕ)
    → AllDigits ds
    → is_alpha before ≡ false
    → is_alpha (last_char before (digits ds)) ≡ false
unfolding last_char
last_char-digits [] before h b = b
last_char-digits (d ∷ ds) before h b = last_char-digits ds (b'0' + d) h.1 (digit_lem d h.0).1

-- a number with the letter that stands for a factor
parse_size-letter :
    (c m : ℕ) (ds : List ℕ) (before : ℕ)
    → AllDigits ds
    → is_alpha c ≡ true
    → multiplier c ≡ some m
    → parse_size before (size_option ++ digits ds ++ (c ∷ [])) ≡ number m (digits ds)
unfolding parse_size
parse_size-letter c m ds before h a e = rw (
  adjacent-letter ds c h,
  last_char-letter (digits ds) before c,
  a,
  e,
  drop_last-letter (digits ds) c,
)

parse_size-one :
    (d : ℕ) (ds : List ℕ) (before : ℕ)
    → AllDigits (d ∷ ds)
    → parse_size before (size_option ++ digits (d ∷ ds) ++ []) ≡ number 1 (digits (d ∷ ds))
unfolding parse_size last_char
parse_size-one d ds before h = rw (
  append-nil (digits ds),
  adjacent-digits (d ∷ ds) h,
  last_char-digits ds (b'0' + d) h.1 (digit_lem d h.0).1,
)

number-digits :
    (m d : ℕ) (ds : List ℕ)
    → AllDigits (d ∷ ds)
    → value (d ∷ ds) < 2 ^ 64
    → number m (digits (d ∷ ds)) ≡ some (value (d ∷ ds) * m % 2 ^ 64)
unfolding number strtoull
number-digits m d ds h l =
    let e : min (decimal 0 (digits (d ∷ ds))) (2 ^ 64 - 1) ≡ value (d ∷ ds) =
      rw (decimal-digits (d ∷ ds) 0 h) (omega arith) in
    rw ((digit_lem d h.0).0, e)

scaled :
    (c m d : ℕ) (ds : List ℕ) (before : ℕ)
    → AllDigits (d ∷ ds)
    → value (d ∷ ds) < 2 ^ 64
    → is_alpha c ≡ true
    → multiplier c ≡ some m
    → parse_size before (size_option ++ digits (d ∷ ds) ++ (c ∷ []))
      ≡ some (value (d ∷ ds) * m % 2 ^ 64)
scaled c m d ds before h l a e =
    parse_size-letter c m (d ∷ ds) before h a e ∙ number-digits m d ds h l

-- The text of a decimal number below 2 ^ 64, with a small or big letter behind it or none, is read as
-- the number times the factor of the letter, modulo 2 ^ 64.
pub parse_size-digits :
    (scale : Scale) (d : ℕ) (ds : List ℕ) (before : ℕ)
    → AllDigits (d ∷ ds)
    → value (d ∷ ds) < 2 ^ 64
    → parse_size before (size_option ++ digits (d ∷ ds) ++ letter scale)
      ≡ some (value (d ∷ ds) * factor scale % 2 ^ 64)
unfolding is_alpha multiplier
parse_size-digits one d ds before h l = parse_size-one d ds before h ∙ number-digits 1 d ds h l
parse_size-digits (kilo true) d ds before h l = scaled b'K' (2 ^ 10) d ds before h l refl refl
parse_size-digits (kilo false) d ds before h l = scaled b'k' (2 ^ 10) d ds before h l refl refl
parse_size-digits (mega true) d ds before h l = scaled b'M' (2 ^ 20) d ds before h l refl refl
parse_size-digits (mega false) d ds before h l = scaled b'm' (2 ^ 20) d ds before h l refl refl
parse_size-digits (giga true) d ds before h l = scaled b'G' (2 ^ 30) d ds before h l refl refl
parse_size-digits (giga false) d ds before h l = scaled b'g' (2 ^ 30) d ds before h l refl refl
