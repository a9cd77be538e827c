-- ===== src/Base64/Decode.antt =====
-- A decoder of base 64 text by its definition, and that it reads back what the encoder writes.
use a76xx.Prelude.{
  ℕ, ◌+◌, ◌-◌, ◌*◌, ◌/◌, ◌%◌, ◌≤◌, ◌<◌, ◌≡◌, refl, ap, Bool, true, false, not, ◌&&◌, List, [], ◌∷◌,
  arith, leb, ◌==◌, ==_iff, if◌then◌else◌, length, take, bit_and,
}
use a76xx.Prelude.Bits.{holds_under, holds_under_sound, bit_and_mask}
use a76xx.Base64.{symbol, encode_rest, encode_base64}

-- The value of a digit, by the ranges of RFC 4648.
pub value : ℕ → ℕ
value c =
    if leb b'A' c && leb c b'Z'
    then c - b'A'
    else if leb b'a' c && leb c b'z'
    then c - b'a' + 26
    else if leb b'0' c && leb c b'9'
    then c - b'0' + 52
    else if c == b'+'
    then 62
    else 63

-- Four characters make three bytes, fewer where `=` pads the last group.
pub decode : List ℕ → List ℕ
decode (a ∷ b ∷ c ∷ d ∷ rest) =
    let first = value a * 4 + value b / 16 in
    let second = value b % 16 * 16 + value c / 4 in
    let third = value c % 4 * 64 + value d in
    let others = decode rest in
    if d == b'='
    then (if c == b'=' then first ∷ [] else first ∷ second ∷ [])
    else first ∷ second ∷ third ∷ others
decode _ = []

symbol_test : ℕ → Bool
symbol_test i = value (symbol i) == i && not (symbol i == b'=')

symbol_table : holds_under 64 symbol_test ≡ true
unfolding holds_under symbol_test value
symbol_table = refl

symbol_lem : (i : ℕ) → i < 64 → (value (symbol i) ≡ i) × ((symbol i == b'=') ≡ false)
unfolding symbol_test
symbol_lem i h =
    ground (arith, holds_under_sound 64 symbol_test i symbol_table, ==_iff (value (symbol i)) i)

abbrev pub AllBytes : List ℕ → Type 0
AllBytes [] = Unit
AllBytes (b ∷ bs) = (b < 256) × AllBytes bs

-- The four digits of three bytes, or of two or one with zeroes behind.
pub digits_lem :
    (b1 b2 b3 : ℕ)
    → b1 < 256
    → b2 < 256
    → b3 < 256
    → let s1 = b1 / 4 in
      let s2 = bit_and b1 0b11 * 16 + b2 / 16 in
      let s3 = bit_and b2 0b1111 * 4 + b3 / 64 in
      let s4 = bit_and b3 0b111111 in
      (s1 < 64)
      × (s2 < 64)
      × (s3 < 64)
      × (s4 < 64)
      × (s1 * 4 + s2 / 16 ≡ b1)
      × (s2 % 16 * 16 + s3 / 4 ≡ b2)
      × (s3 % 4 * 64 + s4 ≡ b3)
digits_lem b1 b2 b3 h1 h2 h3 =
    rw (bit_and_mask 2 b1, bit_and_mask 4 b2, bit_and_mask 6 b3) (omega arith)

decode-encode_rest : (bs : List ℕ) → AllBytes bs → decode (encode_rest bs) ≡ bs
unfolding decode encode_rest
decode-encode_rest [] a = refl
decode-encode_rest (b1 ∷ []) a =
    let m = bit_and_mask 2 b1 in
    let s1 = symbol_lem (b1 / 4) (let h = a.0 in omega arith) in
    let s2 = symbol_lem (bit_and b1 0b11 * 16) (omega (arith, m)) in
    rw (s1.0, s2.0) (ap (λ (x : ℕ). x ∷ []) (let h = a.0 in omega (arith, m)))
decode-encode_rest (b1 ∷ b2 ∷ []) a =
    let d = digits_lem b1 b2 0 a.0 a.1.0 (omega arith) in
    let m = bit_and_mask 4 b2 in
    let s1 = symbol_lem (b1 / 4) d.0 in
    let s2 = symbol_lem (bit_and b1 0b11 * 16 + b2 / 16) d.1 in
    let s3 = symbol_lem (bit_and b2 0b1111 * 4) (omega (arith, m)) in
    let e : (bit_and b1 0b11 * 16 + b2 / 16) % 16 * 16 + bit_and b2 0b1111 * 4 / 4 ≡ b2 =
      omega (arith, d.5) in
    rw (s3.1, s1.0, s2.0, s3.0, d.4, e)
decode-encode_rest (b1 ∷ b2 ∷ b3 ∷ rest) a =
    let d = digits_lem b1 b2 b3 a.0 a.1.0 a.1.1.0 in
    let s1 = symbol_lem (b1 / 4) d.0 in
    let s2 = symbol_lem (bit_and b1 0b11 * 16 + b2 / 16) d.1 in
    let s3 = symbol_lem (bit_and b2 0b1111 * 4 + b3 / 64) d.2 in
    let s4 = symbol_lem (bit_and b3 0b111111) d.3 in
    rw (s4.1, s1.0, s2.0, s3.0, s4.0, d.4, d.5, d.6, decode-encode_rest rest a.1.1.1)

pub length-encode_rest : (bs : List ℕ) → length (encode_rest bs) ≡ (length bs + 2) / 3 * 4
unfolding encode_rest
length-encode_rest [] = refl
length-encode_rest (b1 ∷ []) = omega arith
length-encode_rest (b1 ∷ b2 ∷ []) = omega arith
length-encode_rest (b1 ∷ b2 ∷ b3 ∷ rest) = omega (arith, length-encode_rest rest)

pub take_all : (xs : List ℕ) → take (length xs) xs ≡ xs
take_all [] = refl
take_all (x ∷ xs) = ap (λ (r : List ℕ). x ∷ r) (take_all xs)

-- The text written for any bytes decodes to those bytes, and has four characters for each group of
-- three bytes begun, at most the room that base64.h asks the caller for.
pub decode-encode_base64 :
    (input : List ℕ)
    → AllBytes input
    → (decode (encode_base64 input (length input)) ≡ input)
      × (length (encode_base64 input (length input)) ≡ (length input + 2) / 3 * 4)
      × (length (encode_base64 input (length input)) ≤ 4 * (length input / 3 + 1))
unfolding encode_base64
decode-encode_base64 input a =
    rw (take_all input) (
      decode-encode_rest input a,
      length-encode_rest input,
      omega (arith, length-encode_rest input),
    )
