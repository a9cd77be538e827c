-- ===== src/Base64/Null.antt =====
-- The text of src/utils/base64.cpp has no null character.
use a76xx.Prelude.{
  ℕ, ◌*◌, ◌+◌, ◌/◌, ◌<◌, ◌≡◌, refl, Bool, true, false, not, List, [], ◌∷◌, arith, ◌==◌, bit_and,
  length,
}
use a76xx.Prelude.Bits.{holds_under, holds_under_sound}
use a76xx.Base64.{symbol, encode_rest, encode_base64}
use a76xx.Base64.Decode.{AllBytes, digits_lem, take_all}

-- No null character stands in a text.
abbrev pub NoneZero : List ℕ → Type 0
NoneZero [] = Unit
NoneZero (x ∷ xs) = ((x == 0) ≡ false) × NoneZero xs

symbol_test : ℕ → Bool
symbol_test i = not (symbol i == 0)

symbol_table : holds_under 64 symbol_test ≡ true
unfolding holds_under symbol_test
symbol_table = refl

symbol_nonzero : (i : ℕ) → i < 64 → (symbol i == 0) ≡ false
unfolding symbol_test
symbol_nonzero i h = ground (arith, holds_under_sound 64 symbol_test i symbol_table)

encode_rest-NoneZero : (bs : List ℕ) → AllBytes bs → NoneZero (encode_rest bs)
unfolding encode_rest
encode_rest-NoneZero [] a = tt
encode_rest-NoneZero (b1 ∷ []) a =
    let d = digits_lem b1 0 0 a.0 (omega arith) (omega arith) in
    (
      symbol_nonzero (b1 / 4) d.0,
      (symbol_nonzero (bit_and b1 0b11 * 16) (omega (arith, d.1)), (refl, (refl, tt))),
    )
encode_rest-NoneZero (b1 ∷ b2 ∷ []) a =
    let d = digits_lem b1 b2 0 a.0 a.1.0 (omega arith) in
    let s3 = symbol_nonzero (bit_and b2 0b1111 * 4) (omega (arith, d.2)) in
    (
      symbol_nonzero (b1 / 4) d.0,
      (symbol_nonzero (bit_and b1 0b11 * 16 + b2 / 16) d.1, (s3, (refl, tt))),
    )
encode_rest-NoneZero (b1 ∷ b2 ∷ b3 ∷ rest) a =
    let d = digits_lem b1 b2 b3 a.0 a.1.0 a.1.1.0 in
    let s3 = symbol_nonzero (bit_and b2 0b1111 * 4 + b3 / 64) d.2 in
    let s4 = symbol_nonzero (bit_and b3 0b111111) d.3 in
    (
      symbol_nonzero (b1 / 4) d.0,
      (
        symbol_nonzero (bit_and b1 0b11 * 16 + b2 / 16) d.1,
        (s3, (s4, encode_rest-NoneZero rest a.1.1.1)),
      ),
    )

pub encode_base64-NoneZero : (bs : List ℕ) → AllBytes bs → NoneZero (encode_base64 bs (length bs))
unfolding encode_base64
encode_base64-NoneZero bs a = rw (take_all bs) (encode_rest-NoneZero bs a)
