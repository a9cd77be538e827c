-- ===== src/SmsCoding/Septets.antt =====
-- pack7Bit and unpack7Bit through the numbers that their bit streams stand for: one writes, the
-- other reads the digits of one number, in base 256 and in base 128.
pub mod Value
pub mod Unpack
pub mod Pack
pub mod Take
use Value.{bytes_value, septets_value, septets, low7, AllBytes, septets-septets_value}
use Unpack.{unpack7_bit_lem, zero-div-pow}
use Pack.{pack_loop_total, Packed, byte_count}
use native.Mathlib.Decide.{dec_lt}
use native.Mathlib.Nat.{one-le-pow, add-mul-div_left}
use native.Mathlib.Numerals.{towards_suc}
use a76xx.Prelude.{
  lt→ltb, ℕ, zero, suc, ◌+◌, ◌-◌, ◌*◌, ◌/◌, ◌%◌, ◌^◌, ◌≤◌, ◌<◌, bit_and, bit_or, ◌≡◌, ◌⊎◌, inl, inr,
  refl, ap, ◌∙◌, sym, Bool, true, false, not, ◌||◌, Option, none, some, List, [], ◌∷◌, arith, ltb,
  leb, ◌==◌, ==_iff, if◌then◌else◌, length, take, map, Bool-cases,
}
use a76xx.Prelude.Bits.{bit_or_shifted, bit_and_mask}
use a76xx.SmsCoding.{next, unpack_loop, unpack7_bit, fill_buffer, is_nil, pack_loop, pack7_bit}

take_all : (xs : List ℕ) → take (length xs) xs ≡ xs
take_all [] = refl
take_all (x ∷ xs) = ap (λ (r : List ℕ). x ∷ r) (take_all xs)

-- pack7Bit never runs out of fuel, and unpack7Bit reads the characters back, each with its low 7
-- bits; the number of bytes is that of the bits, rounded up.
pub unpack7_bit-pack7_bit :
    (text : List ℕ) (fill : ℕ)
    → fill < 8
    → (out : List ℕ) × (pack7_bit text (length text) fill ≡ some out)
      × (unpack7_bit out (length text) fill ≡ low7 text)
      × (length out ≡ byte_count (fill + 7 * length text))
unfolding pack7_bit
unpack7_bit-pack7_bit text fill h =
    let (out, e, p) =
      pack_loop_total (length text + 2) 0 fill text (omega arith) h
        (omega (arith, one-le-pow fill 2)) in
    let q : bytes_value out / 2 ^ fill ≡ septets_value text = rw p.value (
      add-mul-div_left 0 (septets_value text) {y = 2 ^ fill} (one-le-pow fill 2 (omega arith))
      ∙ omega (arith, zero-div-pow fill h)) in
    (
      out,
      rw (take_all text) e,
      unpack7_bit_lem (length text) fill out p.bytes h ∙ rw q (septets-septets_value text),
      p.count,
    )
