-- ===== src/KeyFormat/Print.antt =====
-- The text of a list of keys, in the form that `get_num_of_keys` accepts, and what the character
-- tests say of it.
use ltfs.Prelude.{
  ℕ, zero, suc, ◌+◌, ◌*◌, ◌/◌, ◌%◌, ◌<◌, ◌≡◌, refl, true, false, ◌&&◌, List, [], ◌∷◌, ◌++◌, length,
  get_or, drop, ◌==◌, if◌then◌else◌, codes, arith, all_below, all_below_sound, ap,
}
use ltfs.Base64.Encode.{encode, symbol}
use ltfs.Base64.RoundTrip.{AllBytes}
use ltfs.KeyFormat.Syntax.{
  dk_length, key_length, keyalias_length, is_alnum, is_print, is_xdigit, all_first, is_key_digit,
  is_key, is_keyalias, hex_value, hex_byte, convert_hex, convert_keyalias,
}
use ltfs.KeyFormat.State.{Key}

abbrev pub hex_digit : ℕ → ℕ
hex_digit n = get_or (codes "0123456789abcdef") n 0

abbrev pub hex : List ℕ → List ℕ
hex [] = []
hex (b ∷ bs) = hex_digit (b / 16) ∷ hex_digit (b % 16) ∷ hex bs

-- an identifier: three characters as they are, and nine bytes in hexadecimal
abbrev pub print_dki : List ℕ → List ℕ
print_dki (a ∷ b ∷ c ∷ bytes) = a ∷ b ∷ c ∷ hex bytes
print_dki dki = dki

abbrev pub print_key : Key → List ℕ
print_key k = encode k.dk ++ (b':' ∷ print_dki k.dki)

-- what follows the first key
abbrev pub print_more : List Key → List ℕ
print_more [] = []
print_more (k ∷ ks) = b'/' ∷ (print_key k ++ print_more ks)

-- a data key of 32 bytes and an identifier of three printable characters and nine bytes
abbrev pub IsDki : List ℕ → Type 0
IsDki (a ∷ b ∷ c ∷ bytes) =
    (is_print a ≡ true)
    × (is_print b ≡ true)
    × (is_print c ≡ true)
    × (length bytes ≡ 9)
    × AllBytes bytes
IsDki _ = ⊥

pub record IsKey (k : Key) : Type 0 where
  pub size : length k.dk ≡ dk_length
  pub bytes : AllBytes k.dk
  pub dki : IsDki k.dki

hex_digits :
    all_below 16 (λ n. if is_xdigit (hex_digit n) then hex_value (hex_digit n) == n else false)
    ≡ true
unfolding all_below is_xdigit hex_value
hex_digits = refl

hex_digit_lem : (n : ℕ) → n < 16 → (is_xdigit (hex_digit n) ≡ true) × (hex_value (hex_digit n) ≡ n)
hex_digit_lem n h = let t = all_below_sound 16 _ n hex_digits h in (ground arith, ground arith)

symbols_digit : all_below 64 (λ v. is_key_digit (symbol v)) ≡ true
unfolding all_below is_key_digit is_alnum
symbols_digit = refl

symbol_digit : (v : ℕ) → v < 64 → is_key_digit (symbol v) ≡ true
symbol_digit v h = all_below_sound 64 _ v symbols_digit h

-- the digits of `3 * k + 2` bytes
abbrev digits : ℕ → ℕ
digits zero = 3
digits (suc k) = suc (suc (suc (suc (digits k))))

encode-digits :
    (k : ℕ) (bs rest : List ℕ)
    → length bs ≡ 3 * k + 2
    → AllBytes bs
    → (all_first (digits k) is_key_digit (encode bs ++ rest) ≡ true)
      × (drop (digits k) (encode bs ++ rest) ≡ b'=' ∷ rest)
      × (length (encode bs) ≡ digits k + 1)
unfolding encode all_first
encode-digits zero (a ∷ b ∷ []) rest e h = (
  ground
      (arith, symbol_digit (a / 4), symbol_digit (a % 4 * 16 + b / 16), symbol_digit (b % 16 * 4)),
  refl,
  refl,
)
encode-digits (suc k) (a ∷ b ∷ c ∷ bs) rest e h =
    let (d, t, l) = encode-digits k bs rest (omega arith) h.1.1.1 in
    (
      ground (
        arith,
        d,
        symbol_digit (a / 4),
        symbol_digit (a % 4 * 16 + b / 16),
        symbol_digit (b % 16 * 4 + c / 64),
        symbol_digit (c % 64),
      ),
      t,
      omega (arith, l),
    )
encode-digits k bs rest e h = absurd (omega arith)

abbrev double : ℕ → ℕ
double zero = 0
double (suc n) = suc (suc (double n))

hex_lem :
    (bs rest : List ℕ)
    → AllBytes bs
    → (all_first (double (length bs)) is_xdigit (hex bs ++ rest) ≡ true)
      × (convert_hex (length bs) (hex bs ++ rest) ≡ bs)
      × (length (hex bs) ≡ double (length bs))
      × (drop (double (length bs)) (hex bs ++ rest) ≡ rest)
unfolding all_first convert_hex hex_byte
hex_lem [] rest h = (refl, refl, refl, refl)
hex_lem (b ∷ bs) rest h =
    let (x, c, l, d) = hex_lem bs rest h.1 in
    let (hi, vhi) = hex_digit_lem (b / 16) (omega arith) in
    let (lo, vlo) = hex_digit_lem (b % 16) (omega arith) in
    (rw (hi, lo, x), rw (hi, lo, vhi, vlo, c) (ap (λ n. n ∷ bs) (omega arith)), omega arith, d)

pub print_dki_lem :
    (dki rest : List ℕ)
    → IsDki dki
    → (is_keyalias (print_dki dki ++ rest) ≡ true)
      × (convert_keyalias (print_dki dki ++ rest) ≡ dki)
      × (length (print_dki dki) ≡ keyalias_length)
unfolding is_keyalias all_first convert_keyalias
print_dki_lem (a ∷ b ∷ c ∷ bytes) rest (pa, pb, pc, n, h) =
    let (x, v, l, _) = hex_lem bytes rest h in
    let x' : all_first 18 is_xdigit (hex bytes ++ rest) ≡ true = rw n at x in
    let v' : convert_hex 9 (hex bytes ++ rest) ≡ bytes = rw n at v in
    let l' : length (hex bytes) ≡ 18 = rw n at l in (rw (pa, pb, pc, x'), rw v', rw l')
print_dki_lem [] rest h = absurd h
print_dki_lem (a ∷ []) rest h = absurd h
print_dki_lem (a ∷ b ∷ []) rest h = absurd h

pub encode_key :
    (k : Key) (rest : List ℕ)
    → IsKey k
    → (is_key (encode k.dk ++ rest) ≡ true) × (length (encode k.dk) ≡ key_length)
unfolding is_key
encode_key k rest h =
    let (d, t, l) = encode-digits 10 k.dk rest h.size h.bytes in (rw (d, t) one_sign, l)
  where
    one_sign : (true && all_first 1 (λ c. c == b'=') (b'=' ∷ rest)) ≡ true
    one_sign = unfold all_first in refl
