-- ===== src/SmsCoding/Septets/Value.antt =====
-- The numbers that a stream of bytes and a stream of 7-bit characters stand for.
use native.Mathlib.Numerals.{towards_suc}
use a76xx.Prelude.{
  ℕ, zero, suc, ◌+◌, ◌*◌, ◌/◌, ◌%◌, ◌^◌, ◌<◌, ◌≡◌, refl, List, [], ◌∷◌, arith, length, map,
}

-- The number with the given digits, lowest first, in base `256`.
abbrev pub bytes_value : List ℕ → ℕ
bytes_value [] = 0
bytes_value (b ∷ bs) = b + 256 * bytes_value bs

-- The number whose 7-bit digits are the low 7 bits of the characters.
abbrev pub septets_value : List ℕ → ℕ
septets_value [] = 0
septets_value (c ∷ cs) = c % 128 + 128 * septets_value cs

-- The lowest `n` digits of a number in base 128.
abbrev pub septets : ℕ → ℕ → List ℕ
septets zero x = []
septets (suc n) x = x % 128 ∷ septets n (x / 128)

-- The characters with only their low 7 bits, as `& 0x7F` leaves them.
abbrev pub low7 : List ℕ → List ℕ
low7 = map (λ c. c % 128)

pub septets-septets_value : (cs : List ℕ) → septets (length cs) (septets_value cs) ≡ low7 cs
septets-septets_value [] = refl
septets-septets_value (c ∷ cs) =
    let v = septets_value cs in
    let q : (c % 128 + 128 * v) / 128 ≡ v = omega arith in
    let r : (c % 128 + 128 * v) % 128 ≡ c % 128 = omega arith in rw (q, r, septets-septets_value cs)

pub pow_plus7 : (s : ℕ) → 2 ^ (s + 7) ≡ 128 * 2 ^ s
pow_plus7 s = simp towards_suc (omega arith)

pub pow_plus8 : (s : ℕ) → 2 ^ (s + 8) ≡ 256 * 2 ^ s
pow_plus8 s = simp towards_suc (omega arith)

abbrev pub AllBytes : List ℕ → Type 0
AllBytes [] = Unit
AllBytes (b ∷ bs) = (b < 256) × AllBytes bs
