-- ===== src/SmsCoding/Bcd.antt =====
-- Telephone numbers as swapped nibbles, and UCS-2 text of ASCII characters, read back.
use native.Mathlib.Decide.{dec_lt}
use a76xx.Prelude.{
  ℕ, zero, suc, ◌+◌, ◌-◌, ◌*◌, ◌/◌, ◌%◌, ◌^◌, ◌≤◌, ◌<◌, bit_and, bit_or, ◌≡◌, inl, inr, refl, ap,
  ◌∙◌, false, List, [], ◌∷◌, arith, ltb, ◌==◌, ==_iff, if◌then◌else◌, length, get_or, list_ext,
  Bool-cases, lt→ltb, get_or-set, length-set,
}
use a76xx.Prelude.Bits.{bit_or_shifted, bit_and_mask}
use a76xx.SmsCoding.{extract_from, extract_bcd_digits, bcd_byte, store_from, store_bcd_digits}

abbrev pub IsDigits : List ℕ → Type 0
IsDigits ds = (i : ℕ) → i < length ds → (48 ≤ get_or ds i 0) × (get_or ds i 0 < 58)

get_or_past : (xs : List ℕ) (i : ℕ) → length xs ≤ i → get_or xs i 0 ≡ 0
get_or_past [] i h = refl
get_or_past (x ∷ xs) zero h = absurd (omega arith)
get_or_past (x ∷ xs) (suc i) h = get_or_past xs i (omega arith)

length-store_from : (input : List ℕ) (i n : ℕ) → length (store_from input i n) ≡ n
unfolding store_from
length-store_from input i zero = refl
length-store_from input i (suc n) = ap suc (length-store_from input (i + 1) n)

get_or-store_from :
    (input : List ℕ) (i n j : ℕ)
    → j < n
    → get_or (store_from input i n) j 0 ≡ bcd_byte input (i + j)
unfolding store_from
get_or-store_from input i zero j h = absurd (omega arith)
get_or-store_from input i (suc n) zero h = ap (bcd_byte input) (omega arith)
get_or-store_from input i (suc n) (suc j) h =
    let e : i + 1 + j ≡ i + suc j = omega arith in
    get_or-store_from input (i + 1) n j (omega arith) ∙ ap (bcd_byte input) e

length-extract_from : (input : List ℕ) (i n : ℕ) → length (extract_from input i n) ≡ n
unfolding extract_from
length-extract_from input i zero = refl
length-extract_from input i (suc n) = ap suc (length-extract_from input (i + 1) n)

-- The digit at a place: the low nibble of a byte first, then the high one.
abbrev nibble : ℕ → ℕ → ℕ
nibble b i = if i % 2 == 0 then b % 16 else b / 16 % 16

nibble_of : (b i : ℕ) → bit_and (b / 2 ^ (bit_and i 1 * 2 ^ 2)) 0x0f ≡ nibble b i
nibble_of b i =
    rw (bit_and_mask 1 i, bit_and_mask 4 (b / 2 ^ (i % 2 ^ 1 * 2 ^ 2)))
      (elim (Bool-cases (i % 2 == 0)) [
        | inl e ↦ let f : i % 2 ≡ 0 = (==_iff (i % 2) 0).0 e in rw f (omega arith)
        | inr e ↦ let f : i % 2 ≡ 1 = ground arith in rw f refl
      ])

nibble-lt : (b i : ℕ) → nibble b i < 16
nibble-lt b i = ground arith

get_or-extract_from :
    (input : List ℕ) (i n j : ℕ)
    → j < n
    → get_or (extract_from input i n) j 0 ≡ nibble (get_or input ((i + j) / 2) 0) (i + j) + 48
unfolding extract_from
get_or-extract_from input i zero j h = absurd (omega arith)
get_or-extract_from input i (suc n) zero h =
    let e : i + 0 ≡ i = omega arith in
    rw e (
      rw (nibble_of (get_or input (i / 2) 0) i)
        (omega (arith, nibble-lt (get_or input (i / 2) 0) i)))
get_or-extract_from input i (suc n) (suc j) h =
    let e : i + 1 + j ≡ i + suc j = omega arith in
    rw e at (get_or-extract_from input (i + 1) n j (omega arith))

-- A stored byte holds two digits; behind an odd number of digits its high nibble is 0.
bcd_byte_lem :
    (ds : List ℕ) (i : ℕ)
    → IsDigits ds
    → i * 2 < length ds
    → bcd_byte ds i
      ≡ (get_or ds (i * 2) 0 - 48)
        + (if ltb (i * 2 + 1) (length ds) then get_or ds (i * 2 + 1) 0 - 48 else 0) * 16
unfolding bcd_byte
bcd_byte_lem ds i d h =
    let low = get_or ds (i * 2) 0 in
    let high = get_or ds (i * 2 + 1) 0 in
    let dl = d (i * 2) h in
    let el : (low + 256 - 48) % 256 ≡ low - 48 = omega arith in
    elim (dec_lt (i * 2 + 1) (length ds)) [
      | yes k ↦
          let dh = d (i * 2 + 1) k in
          let eh : (high + 256 - 48) % 256 * 16 % 256 ≡ (high - 48) * 2 ^ 4 = omega arith in
          rw (el, eh, bit_or_shifted 4 (low - 48) (high - 48) (omega arith), lt→ltb _ _ k) refl
      | no k ↦
          let z : high ≡ 0 = get_or_past ds (i * 2 + 1) (omega arith) in
          let f : ltb (i * 2 + 1) (length ds) ≡ false = ground arith in
          rw (el, z, bit_or_shifted 4 (low - 48) 0 (omega arith), f) refl
    ]

module _ (ds : List ℕ) (d : IsDigits ds) where
  abbrev bytes : ℕ
  bytes = (length ds + 1) / 2

  -- Each byte of the result: two digits, or a digit and the filler of an odd number.
  stored_byte :
      (i : ℕ)
      → i < bytes
      → get_or (store_bcd_digits ds (length ds)) i 0
        ≡ (get_or ds (i * 2) 0 - 48)
          + (if ltb (i * 2 + 1) (length ds) then get_or ds (i * 2 + 1) 0 - 48 else 15) * 16
  unfolding store_bcd_digits
  stored_byte i h =
      let out = store_from ds 0 bytes in
      let b = get_or-store_from ds 0 bytes i h in
      let e : 0 + i ≡ i = omega arith in
      let c = bcd_byte_lem ds i d (omega arith) in
      let last = get_or out (bytes - 1) 0 in
      let dl = d (i * 2) (omega arith) in
      rw (bit_and_mask 1 (length ds)) (elim (Bool-cases (length ds % 2 == 0)) [
        | inl even ↦ rw even (ground (arith, b, e, c))
        | inr odd ↦ rw odd (elim (dec_lt (i + 1) bytes) [
          | yes k ↦ ground (
            arith,
            get_or-set out (bytes - 1) (bit_or last 0xf0) i 0,
            length-store_from ds 0 bytes,
            b,
            e,
            c,
          )
          | no k ↦
              let at_end : bytes - 1 ≡ i = omega arith in
              rw at_end (
                ground (
                  arith,
                  get_or-set out i (bit_or (get_or out i 0) 0xf0) i 0,
                  length-store_from ds 0 bytes,
                  b,
                  e,
                  c,
                  bit_or_shifted 4 (get_or ds (i * 2) 0 - 48) 15,
                ))
        ])
      ])

  pub length-store_bcd_digits : length (store_bcd_digits ds (length ds)) ≡ bytes
  unfolding store_bcd_digits
  length-store_bcd_digits =
      let out = store_from ds 0 bytes in
      ground (
        arith,
        length-store_from ds 0 bytes,
        length-set out (bytes - 1) (bit_or (get_or out (bytes - 1) 0) 0xf0),
      )

  -- A number of decimal digits is stored in half as many bytes, rounded up, from which
  -- `extractBcdDigits` reads the same digits.
  pub extract_bcd_digits-store_bcd_digits :
      (length (store_bcd_digits ds (length ds)) ≡ (length ds + 1) / 2)
      × (extract_bcd_digits (store_bcd_digits ds (length ds)) (length ds) ≡ ds)
  unfolding extract_bcd_digits
  extract_bcd_digits-store_bcd_digits = (
    length-store_bcd_digits,
    list_ext 0 _ _ (length-extract_from (store_bcd_digits ds (length ds)) 0 (length ds)) (λ i hi.
        let h : i < length ds =
          omega (arith, length-extract_from (store_bcd_digits ds (length ds)) 0 (length ds)) in
        let e : 0 + i ≡ i = omega arith in
        let di = d i h in
        rw e at (get_or-extract_from (store_bcd_digits ds (length ds)) 0 (length ds) i h)
        ∙ rw (stored_byte (i / 2) (omega arith)) (elim (Bool-cases (i % 2 == 0)) [
          | inl even ↦
              let back : i / 2 * 2 ≡ i = ground arith in
              rw (even, back) (ground (arith, d i h, d (i + 1)))
          | inr odd ↦
              let back : i / 2 * 2 + 1 ≡ i = ground arith in
              rw (odd, back, lt→ltb i (length ds) h) (ground (arith, d (i / 2 * 2) (omega arith)))
        ])),
  )
