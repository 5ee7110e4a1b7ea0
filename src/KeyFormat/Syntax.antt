-- ===== src/KeyFormat/Syntax.antt =====
-- The syntax of a key list: `is_key`, `is_keyalias`, `get_num_of_keys` and the two conversions.
use ltfs.Prelude.{
  ℕ, zero, suc, ◌+◌, ◌-◌, ◌*◌, ◌/◌, ◌%◌, Bool, true, false, ◌&&◌, ◌||◌, Option, none, some, List,
  [], ◌∷◌, ◌++◌, length, get_or, take, drop, leb, ◌==◌, if◌then◌else◌,
}
use ltfs.Base64.{base64_decode, failed, decoded}

-- key_format_ltfs.h: DK_LENGTH, DKI_LENGTH, DKI_ASCII_LENGTH, SEPARATOR_LENGTH
abbrev pub dk_length : ℕ
dk_length = 32

abbrev pub dki_length : ℕ
dki_length = 12

abbrev pub dki_ascii_length : ℕ
dki_ascii_length = 3

abbrev pub separator_length : ℕ
separator_length = 1

-- the characters of a key: the data ones, `(DK_LENGTH * 8 + 5) / 6`, and all with the padding
abbrev pub key_digits : ℕ
key_digits = (dk_length * 8 + 5) / 6

abbrev pub key_length : ℕ
key_length = (key_digits + 3) / 4 * 4

abbrev pub keyalias_length : ℕ
keyalias_length = dki_ascii_length + (dki_length - dki_ascii_length) * 2

-- <ctype.h> in the C locale
pub between : ℕ → ℕ → ℕ → Bool
between lo hi c = leb lo c && leb c hi

unfoldable pub is_alnum : ℕ → Bool
unfolding between
is_alnum c = between b'0' b'9' c || between b'A' b'Z' c || between b'a' b'z' c

unfoldable pub is_print : ℕ → Bool
unfolding between
is_print c = between 0x20 0x7e c

unfoldable pub is_xdigit : ℕ → Bool
unfolding between
is_xdigit c = between b'0' b'9' c || between b'A' b'F' c || between b'a' b'f' c

-- whether the first `n` characters of a text pass a test; behind its end a text has its NUL
unfoldable pub all_first : ℕ → (ℕ → Bool) → List ℕ → Bool
all_first zero test s = true
all_first (suc n) test [] = test 0 && all_first n test []
all_first (suc n) test (c ∷ s) = test c && all_first n test s

unfoldable pub is_key_digit : ℕ → Bool
is_key_digit c = is_alnum c || (c == b'+' || c == b'/')

unfoldable pub is_key : List ℕ → Bool
is_key key =
    all_first key_digits is_key_digit key
    && all_first (key_length - key_digits) (λ c. c == b'=') (drop key_digits key)

unfoldable pub is_keyalias : List ℕ → Bool
is_keyalias keyalias =
    all_first dki_ascii_length is_print keyalias
    && all_first ((dki_length - dki_ascii_length) * 2) is_xdigit (drop dki_ascii_length keyalias)

-- the body of the loop of `get_num_of_keys` on what is left of the list: what follows the pair
unfoldable pub pair : List ℕ → Option (List ℕ)
pair s =
    if is_key s
    then (if get_or s key_length 0 == b':'
        then (if is_keyalias (drop (key_length + separator_length) s)
            then some (drop (key_length + separator_length + keyalias_length) s)
            else none)
        else none)
    else none

-- the condition of the loop: room for a separator and a pair, and the separator
unfoldable pub more : List ℕ → Bool
more s =
    leb (separator_length + key_length + separator_length + keyalias_length) (length s)
    && get_or s 0 0 == b'/'

-- the loop, on fuel, to the end of the text: the number of pairs; none is -LTFS_BAD_ARG
unfoldable pub pairs : ℕ → List ℕ → ℕ → Option ℕ
pairs zero s num_of_keys = none
pairs (suc fuel) s num_of_keys = elim (pair s) [
  | none ↦ none
  | some rest ↦ elim (more rest) [
    | true ↦ pairs fuel (drop separator_length rest) (num_of_keys + 1)
    | false ↦ if length rest == 0 then some (num_of_keys + 1) else none
  ]
]

-- A text too short for one pair counts as no pair. Each round takes a pair, so the length of the
-- text is enough fuel.
unfoldable pub get_num_of_keys : List ℕ → Option ℕ
get_num_of_keys dk_list =
    if leb (key_length + separator_length + keyalias_length) (length dk_list)
    then pairs (length dk_list) dk_list 0
    else some 0

-- `convert_key`: the bytes of the key; the buffer keeps its zeroes if the text does not decode to
-- `DK_LENGTH` bytes
unfoldable pub convert_key : ℕ → Bool → List ℕ → List ℕ → List ℕ
convert_key before allocates enc key = elim (base64_decode before allocates (take key_length enc)) [
  | failed ↦ key
  | decoded size dec ↦ if size == dk_length then dec else key
]

-- the value of a hexadecimal digit, as strtoul has it
unfoldable pub hex_value : ℕ → ℕ
hex_value c = if leb c b'9' then c - b'0' else if leb c b'F' then c - b'A' + 10 else c - b'a' + 10

unfoldable pub is_space : ℕ → Bool
unfolding between
is_space c = between 9 13 c || c == b' '

-- strtoul in base 16 of a text of two characters, stored in a byte: it skips a blank, takes a
-- sign, and stops at the first character that is no digit
unfoldable pub hex_byte : ℕ → ℕ → ℕ
hex_byte a b =
    if is_xdigit a
    then (if is_xdigit b then hex_value a * 16 + hex_value b else hex_value a)
    else if is_space a || a == b'+'
    then (if is_xdigit b then hex_value b else 0)
    else if a == b'-'
    then (if is_xdigit b then (256 - hex_value b) % 256 else 0)
    else 0

unfoldable pub convert_hex : ℕ → List ℕ → List ℕ
convert_hex zero s = []
convert_hex (suc n) s = hex_byte (get_or s 0 0) (get_or s 1 0) ∷ convert_hex n (drop 2 s)

unfoldable pub convert_keyalias : List ℕ → List ℕ
convert_keyalias s =
    take dki_ascii_length s ++ convert_hex (dki_length - dki_ascii_length) (drop dki_ascii_length s)
