-- ===== src/Base64/RoundTrip.antt =====
-- What `base64_decode` makes of the base 64 text of a list of bytes.
use ltfs.Prelude.{
  ℕ, ◌+◌, ◌*◌, ◌/◌, ◌%◌, ◌<◌, ◌≡◌, refl, true, false, some, List, [], ◌∷◌, ◌++◌, append-nil, length,
  ◌==◌, if◌then◌else◌, arith, ap, ◌∙◌, all_below, all_below_sound,
}
use ltfs.Base64.{
  base64_dec, invalid, is_white, check_byte, check, Quad, quad_0, quad_1, quad_2, quad_3, emit, put,
  generate, decoded, output, base64_decode,
}
use ltfs.Base64.Encode.{symbol, encode}

-- a character of base 64 that stands for `v`
record Stands (c v : ℕ) : Type 0 where
  sign : (c == b'=') ≡ false
  white : is_white c ≡ false
  known : (base64_dec c == invalid) ≡ false
  value : base64_dec c ≡ v

symbols :
    all_below 64 (λ v.
      if symbol v == b'='
      then false
      else if is_white (symbol v)
      then false
      else base64_dec (symbol v) == v)
    ≡ true
unfolding all_below is_white base64_dec
symbols = refl

symbol-Stands : (v : ℕ) → v < 64 → Stands (symbol v) v
symbol-Stands v h =
    let t = all_below_sound 64 _ v symbols h in
    record { sign = ground arith; white = ground arith; known = ground arith; value = ground arith }

check_byte-Stands :
    (before c v : ℕ) (rest : List ℕ) (n r : ℕ)
    → Stands c v
    → check_byte before c rest n r ≡ some (n, r)
unfolding check_byte
check_byte-Stands before c v [] n r s = ground (arith, s.sign, s.white, s.known)
check_byte-Stands before c v (d ∷ []) n r s = ground (arith, s.sign, s.white, s.known)
check_byte-Stands before c v (d ∷ d' ∷ rest) n r s = ground (arith, s.sign, s.white, s.known)

-- The check passes every character of base 64.
check-Stands :
    (before c v : ℕ) (rest : List ℕ) (n r : ℕ)
    → Stands c v
    → check before (c ∷ rest) n r ≡ check c rest n r
unfolding check
check-Stands before c v rest n r s = rw (check_byte-Stands before c v rest n r s, check)

generate-Stands :
    (q : Quad) (c v : ℕ) (rest : List ℕ)
    → Stands c v
    → generate q (c ∷ rest) ≡ (put q v).1 ++ generate (put q v).0 rest
unfolding generate
generate-Stands q c v rest s = rw (s.white, s.value, generate)

abbrev pub AllBytes : List ℕ → Type 0
AllBytes [] = Unit
AllBytes (b ∷ bs) = (b < 256) × AllBytes bs

-- the signs '=' at the end of the text
abbrev padding : List ℕ → ℕ
padding [] = 0
padding (a ∷ []) = 2
padding (a ∷ b ∷ []) = 1
padding (a ∷ b ∷ c ∷ rest) = padding rest

check-nil : (before r : ℕ) → check before [] 0 r ≡ some (0, r)
unfolding check
check-nil before r = refl

generate-nil : generate quad_0 [] ≡ []
unfolding generate
generate-nil = refl

check-symbol :
    (before v : ℕ) (rest : List ℕ) (n r : ℕ)
    → v < 64
    → check before (symbol v ∷ rest) n r ≡ check (symbol v) rest n r
check-symbol before v rest n r h = check-Stands before (symbol v) v rest n r (symbol-Stands v h)

generate-symbol :
    (q : Quad) (v : ℕ) (rest : List ℕ)
    → v < 64
    → generate q (symbol v ∷ rest) ≡ (put q v).1 ++ generate (put q v).0 rest
generate-symbol q v rest h = generate-Stands q (symbol v) v rest (symbol-Stands v h)

check-two_signs : (before r : ℕ) → check before (b'=' ∷ b'=' ∷ []) 0 r ≡ some (2, r)
unfolding check
check-two_signs before r = refl

check-one_sign :
    (before r : ℕ) → (before == b'=') ≡ false → check before (b'=' ∷ []) 0 r ≡ some (1, r)
unfolding check
check-one_sign before r h = rw h

check-encode :
    (bs : List ℕ) (before r : ℕ) → AllBytes bs → check before (encode bs) 0 r ≡ some (padding bs, r)
unfolding encode
check-encode [] before r h = check-nil before r
check-encode (a ∷ []) before r h =
    check-symbol before (a / 4) _ 0 r (omega arith)
    ∙ check-symbol (symbol (a / 4)) (a % 4 * 16) _ 0 r (omega arith)
    ∙ check-two_signs (symbol (a % 4 * 16)) r
check-encode (a ∷ b ∷ []) before r h =
    check-symbol before (a / 4) _ 0 r (omega arith)
    ∙ check-symbol (symbol (a / 4)) (a % 4 * 16 + b / 16) _ 0 r (omega arith)
    ∙ check-symbol (symbol (a % 4 * 16 + b / 16)) (b % 16 * 4) _ 0 r (omega arith)
    ∙ check-one_sign (symbol (b % 16 * 4)) r (symbol-Stands (b % 16 * 4) (omega arith)).sign
check-encode (a ∷ b ∷ c ∷ rest) before r h =
    check-symbol before (a / 4) _ 0 r (omega arith)
    ∙ check-symbol (symbol (a / 4)) (a % 4 * 16 + b / 16) _ 0 r (omega arith)
    ∙ check-symbol (symbol (a % 4 * 16 + b / 16)) (b % 16 * 4 + c / 64) _ 0 r (omega arith)
    ∙ check-symbol (symbol (b % 16 * 4 + c / 64)) (c % 64) _ 0 r (omega arith)
    ∙ check-encode rest (symbol (c % 64)) r h.1.1.1

-- the bytes of one, two and three
emit_one : (a : ℕ) → a < 256 → emit (a / 4) (a % 4 * 16) invalid invalid ≡ a ∷ []
unfolding emit
emit_one a h = ap (λ k. k ∷ []) (omega arith)

emit_two :
    (a b : ℕ)
    → a < 256
    → b < 256
    → emit (a / 4) (a % 4 * 16 + b / 16) (b % 16 * 4) invalid ≡ a ∷ b ∷ []
unfolding emit
emit_two a b h k = ground arith

emit_three :
    (a b c : ℕ)
    → a < 256
    → b < 256
    → c < 256
    → emit (a / 4) (a % 4 * 16 + b / 16) (b % 16 * 4 + c / 64) (c % 64) ≡ a ∷ b ∷ c ∷ []
unfolding emit
emit_three a b c h k l = ground arith

module _ (p q : ℕ) (hp : p < 64) (hq : q < 64) where
  generate-pair :
      (rest : List ℕ) → generate quad_0 (symbol p ∷ symbol q ∷ rest) ≡ generate (quad_2 p q) rest
  unfolding put
  generate-pair rest =
      generate-symbol quad_0 p (symbol q ∷ rest) hp ∙ generate-symbol (quad_1 p) q rest hq

  generate-two_signs : generate (quad_2 p q) (b'=' ∷ b'=' ∷ []) ≡ emit p q invalid invalid
  unfolding generate put base64_dec
  generate-two_signs = append-nil _

  module _ (r : ℕ) (hr : r < 64) where
    generate-one_sign : generate (quad_2 p q) (symbol r ∷ b'=' ∷ []) ≡ emit p q r invalid
    unfolding put
    generate-one_sign = generate-symbol (quad_2 p q) r (b'=' ∷ []) hr ∙ sign
      where
        sign : generate (quad_3 p q r) (b'=' ∷ []) ≡ emit p q r invalid
        sign = unfold generate base64_dec in append-nil _

    generate-quad :
        (s : ℕ) (rest : List ℕ)
        → s < 64
        → generate (quad_2 p q) (symbol r ∷ symbol s ∷ rest) ≡ emit p q r s ++ generate quad_0 rest
    unfolding put
    generate-quad s rest hs =
        generate-symbol (quad_2 p q) r (symbol s ∷ rest) hr
        ∙ generate-symbol (quad_3 p q r) s rest hs

generate-encode : (bs : List ℕ) → AllBytes bs → generate quad_0 (encode bs) ≡ bs
unfolding encode
generate-encode [] h = generate-nil
generate-encode (a ∷ []) h =
    generate-pair (a / 4) (a % 4 * 16) (omega arith) (omega arith) _
    ∙ generate-two_signs (a / 4) (a % 4 * 16) (omega arith) (omega arith)
    ∙ emit_one a h.0
generate-encode (a ∷ b ∷ []) h =
    generate-pair (a / 4) (a % 4 * 16 + b / 16) (omega arith) (omega arith) _
    ∙ generate-one_sign (a / 4) (a % 4 * 16 + b / 16) (omega arith) (omega arith) (b % 16 * 4)
        (omega arith)
    ∙ emit_two a b h.0 h.1.0
generate-encode (a ∷ b ∷ c ∷ rest) h =
    generate-pair (a / 4) (a % 4 * 16 + b / 16) (omega arith) (omega arith) _
    ∙ generate-quad (a / 4) (a % 4 * 16 + b / 16) (omega arith) (omega arith) (b % 16 * 4 + c / 64)
        (omega arith) (c % 64) _ (omega arith)
    ∙ ap (λ l. l ++ generate quad_0 (encode rest)) (emit_three a b c h.0 h.1.0 h.1.1.0)
    ∙ ap (λ l. a ∷ b ∷ c ∷ l) (generate-encode rest h.1.1.1)

-- the text is four characters for each three bytes begun, and the padding makes up the rest
length-encode :
    (bs : List ℕ)
    → (length (encode bs) % 4 ≡ 0) × (3 * (length (encode bs) / 4) ≡ length bs + padding bs)
unfolding encode
length-encode [] = omega arith
length-encode (a ∷ []) = omega arith
length-encode (a ∷ b ∷ []) = omega arith
length-encode (a ∷ b ∷ c ∷ rest) = omega (arith, length-encode rest)

encode-ne-nil : (b : ℕ) (bs : List ℕ) → (length (encode (b ∷ bs)) == 0) ≡ false
unfolding encode
encode-ne-nil a [] = refl
encode-ne-nil a (b ∷ []) = refl
encode-ne-nil a (b ∷ c ∷ rest) = ground arith

-- The decoder gives back any bytes, at least one, from their base 64 text, and their number, when
-- the allocation of the output succeeds.
pub base64_decode-encode :
    (before b : ℕ) (bs : List ℕ)
    → AllBytes (b ∷ bs)
    → base64_decode before true (encode (b ∷ bs)) ≡ decoded (length (b ∷ bs)) (b ∷ bs)
unfolding base64_decode output
base64_decode-encode before b bs h =
    let len = length-encode (b ∷ bs) in
    rw
      (
        encode-ne-nil b bs,
        check-encode (b ∷ bs) before (length (encode (b ∷ bs))) h,
        output,
        generate-encode (b ∷ bs) h,
      )
      (ground (arith, len.0, len.1))
