-- ===== src/SmsCoding/Lengths.antt =====
-- How much the decoders of src/utils/smsCoding.cpp write.
use a76xx.Prelude.{ℕ, zero, suc, ◌+◌, ◌≡◌, refl, ap, List, length, Bool-cases, inl, inr, ◌==◌, not}
use a76xx.SmsCoding.{
  unpack_loop, unpack7_bit, extract_from, extract_bcd_digits, decode_ucs2_from, decode_ucs2,
}

length-unpack_loop :
    (n buffer bits : ℕ) (input : List ℕ) → length (unpack_loop buffer bits input n) ≡ n
unfolding unpack_loop
length-unpack_loop zero buffer bits input = refl
length-unpack_loop (suc n) buffer bits input = ap suc (length-unpack_loop n _ _ _)

pub length-unpack7_bit :
    (input : List ℕ) (n fillbits : ℕ) → length (unpack7_bit input n fillbits) ≡ n
unfolding unpack7_bit
length-unpack7_bit input n fillbits = elim (Bool-cases (not (fillbits == 0))) [
  | inl e ↦ rw e (length-unpack_loop n _ _ _)
  | inr e ↦ rw e (length-unpack_loop n _ _ _)
]

length-extract_from : (n : ℕ) (input : List ℕ) (i : ℕ) → length (extract_from input i n) ≡ n
unfolding extract_from
length-extract_from zero input i = refl
length-extract_from (suc n) input i = ap suc (length-extract_from n input (i + 1))

pub length-extract_bcd_digits : (input : List ℕ) (n : ℕ) → length (extract_bcd_digits input n) ≡ n
unfolding extract_bcd_digits
length-extract_bcd_digits input n = length-extract_from n input 0

length-decode_ucs2_from : (n : ℕ) (input : List ℕ) (i : ℕ) → length (decode_ucs2_from input i n) ≡ n
unfolding decode_ucs2_from
length-decode_ucs2_from zero input i = refl
length-decode_ucs2_from (suc n) input i = ap suc (length-decode_ucs2_from n input (i + 1))

pub length-decode_ucs2 : (input : List ℕ) (n : ℕ) → length (decode_ucs2 input n) ≡ n
unfolding decode_ucs2
length-decode_ucs2 input n = length-decode_ucs2_from n input 0
