-- ===== src/Base64/Tests.antt =====
-- Texts of base 64: tests of the decoder, and the round trip at one.
use ltfs.Prelude.{◌≡◌, refl, true, [], ◌∷◌, codes, arith}
use ltfs.Base64.{failed, decoded, base64_dec, base64_decode, generate, put, emit, check}
use ltfs.Base64.Encode.{encode}
use ltfs.Base64.RoundTrip.{base64_decode-encode}

program : Unit {0}
unfolding base64_decode base64_dec generate put emit check
program = tt

-- blanks in the text are skipped
skips_blanks : base64_decode 0 true (codes "TWF u\nTQ==") ≡ decoded 4 (codes "ManM")
unfolding program
skips_blanks = refl

-- a line end behind the padding is refused
refuses_line_end : base64_decode 0 true (codes "TQ==\n") ≡ failed
unfolding program
refuses_line_end = refl

base64_decode-encode_example :
    base64_decode 0 true (encode (77 ∷ 97 ∷ [])) ≡ decoded 2 (77 ∷ 97 ∷ [])
base64_decode-encode_example = base64_decode-encode 0 77 (97 ∷ []) (omega arith)
