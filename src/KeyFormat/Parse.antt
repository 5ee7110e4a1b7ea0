-- ===== src/KeyFormat/Parse.antt =====
-- `get_num_of_keys` and the loop of `set_dk_list` on the text of a list of keys.
use ltfs.Prelude.{
  ℕ, zero, suc, ◌+◌, ◌*◌, ◌<◌, ◌≡◌, refl, true, false, some, List, [], ◌∷◌, ◌++◌, length, drop,
  arith, ap, sym, ◌∙◌, le→leb, drop_past, get_or_past, take_prefix, append_assoc, length-append,
  replicate,
}
use ltfs.Base64.{base64_decode, decoded}
use ltfs.Base64.Encode.{encode}
use ltfs.Base64.RoundTrip.{AllBytes, base64_decode-encode}
use ltfs.KeyFormat.Syntax.{
  dk_length, key_length, separator_length, pair, more, pairs, get_num_of_keys, convert_key,
  convert_keyalias,
}
use ltfs.KeyFormat.State.{Key, convert_pairs}
use ltfs.KeyFormat.Print.{print_dki, print_key, print_more, IsKey, print_dki_lem, encode_key}

abbrev pub AllKeys : List Key → Type 0
AllKeys [] = Unit
AllKeys (k ∷ ks) = IsKey k × AllKeys ks

decode_dk :
    (before : ℕ) (dk : List ℕ)
    → length dk ≡ dk_length
    → AllBytes dk
    → base64_decode before true (encode dk) ≡ decoded dk_length dk
decode_dk before [] e h = absurd (omega arith)
decode_dk before (b ∷ bs) e h = base64_decode-encode before b bs h ∙ ap (λ n. decoded n (b ∷ bs)) e

module _ (k : Key) (h : IsKey k) (rest : List ℕ) where
  abbrev text : List ℕ
  text = encode k.dk ++ (b':' ∷ (print_dki k.dki ++ rest))

  text_eq : print_key k ++ rest ≡ text
  text_eq = append_assoc (encode k.dk) (b':' ∷ print_dki k.dki) rest

  alias_at : drop (key_length + separator_length) text ≡ print_dki k.dki ++ rest
  alias_at = drop_past (encode k.dk) _ 1 45 (omega (arith, (encode_key k rest h).1))

  pub length-text : length (print_key k ++ rest) ≡ 66 + length rest
  length-text =
      ap length text_eq
      ∙ length-append (encode k.dk) _
      ∙ omega (
        arith,
        (encode_key k rest h).1,
        length-append (print_dki k.dki) rest,
        (print_dki_lem k.dki rest h.dki).2,
      )

  length-print_key : length (print_key k) ≡ 66
  length-print_key = omega (arith, length-text, length-append (print_key k) rest)

  pub rest_at : (n m : ℕ) → m ≡ 66 + n → drop m (print_key k ++ rest) ≡ drop n rest
  rest_at n m e = drop_past (print_key k) rest n m (omega (arith, length-print_key))

  -- a printed key is a pair, and what follows it is left
  pub pair-print : pair (print_key k ++ rest) ≡ some rest
  unfolding pair
  pair-print =
      rw
        (
          text_eq,
          (encode_key k (b':' ∷ (print_dki k.dki ++ rest)) h).0,
          get_or_past (encode k.dk) (b':' ∷ (print_dki k.dki ++ rest)) 0 44 0
              (omega (arith, (encode_key k rest h).1)),
          alias_at,
          (print_dki_lem k.dki rest h.dki).0,
        )
        (ap some (rw (← text_eq) (rest_at 0 66 refl)))

  pub convert_key-print :
      (before : ℕ) (key : List ℕ) → convert_key before true (print_key k ++ rest) key ≡ k.dk
  unfolding convert_key
  convert_key-print before key = rw (
    text_eq,
    convert_key,
    take_prefix (encode k.dk) (b':' ∷ (print_dki k.dki ++ rest)) 44 (sym ((encode_key k rest h).1)),
    decode_dk before k.dk h.size h.bytes,
  )

  pub convert_keyalias-print :
      convert_keyalias (drop (key_length + 1) (print_key k ++ rest)) ≡ k.dki
  convert_keyalias-print = rw (text_eq, alias_at) ((print_dki_lem k.dki rest h.dki).1)

more-nil : more [] ≡ false
unfolding more
more-nil = refl

more-print : (k : Key) (rest : List ℕ) → IsKey k → more (b'/' ∷ (print_key k ++ rest)) ≡ true
unfolding more
more-print k rest h =
    rw (le→leb 67 (suc (length (print_key k ++ rest))) (omega (arith, length-text k h rest)))

-- The loop counts the keys of a printed list, on any fuel above their number.
pairs-print :
    (k : Key) (ks : List Key) (fuel n : ℕ)
    → AllKeys (k ∷ ks)
    → length ks < fuel
    → pairs fuel (print_key k ++ print_more ks) n ≡ some (n + length (k ∷ ks))
unfolding pairs
pairs-print k ks zero n h l = absurd (omega arith)
pairs-print k [] (suc fuel) n h l =
    rw (pair-print k h.0 [], pairs, more-nil) (ap some (omega arith))
pairs-print k (k' ∷ ks) (suc fuel) n h l =
    rw (pair-print k h.0 (print_more (k' ∷ ks)), pairs, more-print k' (print_more ks) h.1.0)
      (pairs-print k' ks fuel (n + 1) h.1 (omega arith) ∙ ap some (omega arith))

length-print_more : (ks : List Key) → AllKeys ks → length (print_more ks) ≡ 67 * length ks
length-print_more [] h = refl
length-print_more (k ∷ ks) h =
    omega (arith, length-text k h.0 (print_more ks), length-print_more ks h.1)

-- The text of a list of keys, at least one, counts as that many keys.
pub get_num_of_keys-print :
    (k : Key) (ks : List Key)
    → AllKeys (k ∷ ks)
    → get_num_of_keys (print_key k ++ print_more ks) ≡ some (length (k ∷ ks))
unfolding get_num_of_keys
get_num_of_keys-print k ks h =
    let text = print_key k ++ print_more ks in
    let len = length-text k h.0 (print_more ks) in
    let more_len = length-print_more ks h.1 in
    rw (le→leb 66 (length text) (omega (arith, len)))
      (pairs-print k ks (length text) 0 h (omega (arith, len, more_len)) ∙ ap some (omega arith))

-- The keys that are read from the text of a list of keys are those of the list.
pub convert_pairs-print :
    (k : Key) (ks : List Key) (before : ℕ)
    → AllKeys (k ∷ ks)
    → convert_pairs true (length (k ∷ ks)) before (print_key k ++ print_more ks) ≡ k ∷ ks
unfolding convert_pairs
convert_pairs-print k [] before h =
    rw (convert_key-print k h.0 [] before (replicate dk_length 0), convert_keyalias-print k h.0 [])
convert_pairs-print k (k' ∷ ks) before h =
    let rest = print_more (k' ∷ ks) in
    rw
      (
        convert_key-print k h.0 rest before (replicate dk_length 0),
        convert_keyalias-print k h.0 rest,
        rest_at k h.0 rest 1 67 refl,
      )
      (ap (◌∷◌ k) (convert_pairs-print k' ks b'/' h.1))
