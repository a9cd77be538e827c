-- ===== src/Base64.antt =====
-- src/utils/base64.h and base64.cpp: the encoder that the HTTP client uses for credentials.
pub mod Decode
pub mod Null
mod Tests
use a76xx.Prelude.{ℕ, ◌+◌, ◌*◌, ◌/◌, ◌^◌, bit_and, List, [], ◌∷◌, codes, get_or, take}

-- __SYMBOLS__
abbrev pub symbols : List ℕ
symbols = codes "ABCDEFGHIJKLMNOPQRSTUVWXYZabcdefghijklmnopqrstuvwxyz0123456789+/"

abbrev pub symbol : ℕ → ℕ
symbol i = get_or symbols i 0

-- The loop and the two endings of encodeBase64 on the bytes that are left; the result is what is
-- written to `output`, which gets no terminating null character.
pub encode_rest : List ℕ → List ℕ
encode_rest (b1 ∷ b2 ∷ b3 ∷ rest) =
    symbol (b1 / 2 ^ 2)
    ∷ symbol (bit_and b1 0b11 * 2 ^ 4 + b2 / 2 ^ 4)
    ∷ symbol (bit_and b2 0b1111 * 2 ^ 2 + b3 / 2 ^ 6)
    ∷ symbol (bit_and b3 0b111111)
    ∷ encode_rest rest
encode_rest (b1 ∷ b2 ∷ []) =
    symbol (b1 / 2 ^ 2)
    ∷ symbol (bit_and b1 0b11 * 2 ^ 4 + b2 / 2 ^ 4)
    ∷ symbol (bit_and b2 0b1111 * 2 ^ 2)
    ∷ b'='
    ∷ []
encode_rest (b1 ∷ []) = symbol (b1 / 2 ^ 2) ∷ symbol (bit_and b1 0b11 * 2 ^ 4) ∷ b'=' ∷ b'=' ∷ []
encode_rest [] = []

-- encodeBase64 reads `length` bytes of its input.
pub encode_base64 : List ℕ → ℕ → List ℕ
encode_base64 input length = encode_rest (take length input)
