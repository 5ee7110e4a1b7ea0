-- ===== src/Base64/Encode.antt =====
-- The base 64 text of a list of bytes, as RFC 4648 defines it.
use ltfs.Prelude.{ℕ, ◌+◌, ◌*◌, ◌/◌, ◌%◌, List, [], ◌∷◌, get_or}
use ltfs.Base64.{base64_enc}

-- the character of a six-bit value
abbrev pub symbol : ℕ → ℕ
symbol v = get_or base64_enc v 0

unfoldable pub encode : List ℕ → List ℕ
encode [] = []
encode (a ∷ []) = symbol (a / 4) ∷ symbol (a % 4 * 16) ∷ b'=' ∷ b'=' ∷ []
encode (a ∷ b ∷ []) =
    symbol (a / 4) ∷ symbol (a % 4 * 16 + b / 16) ∷ symbol (b % 16 * 4) ∷ b'=' ∷ []
encode (a ∷ b ∷ c ∷ rest) =
    symbol (a / 4)
    ∷ symbol (a % 4 * 16 + b / 16)
    ∷ symbol (b % 16 * 4 + c / 64)
    ∷ symbol (c % 64)
    ∷ encode rest
