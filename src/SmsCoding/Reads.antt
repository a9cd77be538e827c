-- ===== src/SmsCoding/Reads.antt =====
-- How far the decoders of src/utils/smsCoding.cpp read: what stands behind the bytes of a text does
-- not matter.

use a76xx.Prelude.{
  ℕ, zero, suc, ◌+◌, ◌-◌, ◌*◌, ◌/◌, ◌%◌, ◌^◌, bit_or, ◌≤◌, ◌<◌, ◌≡◌, refl, ◌∙◌, inl, inr, false,
  List, [], ◌∷◌, ◌++◌, arith, ltb, lt→ltb, ◌==◌, length, get_or, get_or-append, Bool-cases,
}
use a76xx.SmsCoding.{unpack_loop, unpack7_bit, extract_from, extract_bcd_digits}

unpack_loop-append :
    (n buffer bits : ℕ) (input behind : List ℕ)
    → 7 * n ≤ bits + 8 * length input
    → unpack_loop buffer bits (input ++ behind) n ≡ unpack_loop buffer bits input n
unfolding unpack_loop
unpack_loop-append zero buffer bits input behind h = refl
unpack_loop-append (suc n) buffer bits [] behind h =
    let many : ltb bits 7 ≡ false = ground arith in
    rw (many, unpack_loop-append n (buffer / 2 ^ 7) (bits - 7) [] behind (omega arith))
unpack_loop-append (suc n) buffer bits (b ∷ input) behind h = elim (Bool-cases (ltb bits 7)) [
  | inl few ↦
      let buffer' = bit_or buffer (b * 2 ^ bits % 2 ^ 32) in
      let small : 7 * n ≤ bits + 8 - 7 + 8 * length input = ground arith in
      rw (few, unpack_loop-append n (buffer' / 2 ^ 7) (bits + 8 - 7) input behind small)
  | inr many ↦
      let small : 7 * n ≤ bits - 7 + 8 * length (b ∷ input) = ground arith in
      rw (many, unpack_loop-append n (buffer / 2 ^ 7) (bits - 7) (b ∷ input) behind small)
]

pub unpack7_bit-append :
    (input behind : List ℕ) (n fillbits : ℕ)
    → fillbits < 8
    → fillbits + 7 * n ≤ 8 * length input
    → unpack7_bit (input ++ behind) n fillbits ≡ unpack7_bit input n fillbits
unfolding unpack7_bit
unpack7_bit-append input behind n zero small h = unpack_loop-append n 0 0 input behind (omega arith)
unpack7_bit-append [] behind n (suc fill) small h = absurd (omega arith)
unpack7_bit-append (b ∷ input) behind n (suc fill) small h =
    let f : (suc fill == 0) ≡ false = ground arith in
    rw f (unpack_loop-append n (b / 2 ^ suc fill) (8 - suc fill) input behind (omega arith))

extract_from-append :
    (n i : ℕ) (input behind : List ℕ)
    → i + n ≤ 2 * length input
    → extract_from (input ++ behind) i n ≡ extract_from input i n
unfolding extract_from
extract_from-append zero i input behind h = refl
extract_from-append (suc n) i input behind h =
    let here : get_or (input ++ behind) (i / 2) 0 ≡ get_or input (i / 2) 0 =
      get_or-append input behind (i / 2) 0
      ∙ rw (lt→ltb (i / 2) (length input) (omega arith)) refl in
    rw (here, extract_from-append n (i + 1) input behind (omega arith))

pub extract_bcd_digits-append :
    (input behind : List ℕ) (n : ℕ)
    → n ≤ 2 * length input
    → extract_bcd_digits (input ++ behind) n ≡ extract_bcd_digits input n
unfolding extract_bcd_digits
extract_bcd_digits-append input behind n h = extract_from-append n 0 input behind (omega arith)
