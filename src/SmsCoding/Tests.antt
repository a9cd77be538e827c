-- ===== src/SmsCoding/Tests.antt =====
-- Runs of the codings at concrete texts.
use a76xx.Prelude.{
  ℕ, ◌+◌, ◌*◌, ◌/◌, ◌≤◌, ◌<◌, ◌≡◌, refl, true, false, none, some, List, [], ◌∷◌, arith, length, map,
  codes, get_or,
}
use a76xx.SmsCoding.{
  pack7_bit, unpack7_bit, pack_loop, fill_buffer, encode_gsm, decode_gsm, extract_bcd_digits,
  store_bcd_digits, store_from, bcd_byte, decode_ucs2, decode_ucs2_from,
}
use a76xx.SmsCoding.Septets.{unpack7_bit-pack7_bit}
use a76xx.SmsCoding.Septets.Value.{low7}
use a76xx.SmsCoding.Septets.Pack.{byte_count}
use a76xx.SmsCoding.Bcd.{extract_bcd_digits-store_bcd_digits}
use a76xx.SmsCoding.Gsm.{decode_gsm-encode_gsm, encode_gsm_signed, IsAlnum, sanitized}

abbrev hello : List ℕ
hello = codes "hello"

abbrev blank : List ℕ
blank = 0 ∷ 0 ∷ 0 ∷ 0 ∷ 0 ∷ []

-- The packed form of "hello" that is found in any description of the 7-bit alphabet.
pack7_bit-hello : pack7_bit hello 5 0 ≡ some (0xe8 ∷ 0x32 ∷ 0x9b ∷ 0xfd ∷ 0x06 ∷ [])
unfolding pack7_bit pack_loop fill_buffer
pack7_bit-hello = refl

abbrev number : List ℕ
number = codes "12345"

store_bcd_digits-number : store_bcd_digits number 5 ≡ 0x21 ∷ 0x43 ∷ 0xf5 ∷ []
unfolding store_bcd_digits store_from bcd_byte
store_bcd_digits-number = refl

decode_ucs2-accent : decode_ucs2 (0 ∷ b'A' ∷ 0x20 ∷ 0xac ∷ []) 2 ≡ codes "A?"
unfolding decode_ucs2 decode_ucs2_from
decode_ucs2-accent = refl

unpack7_bit-pack7_bit_example :
    (out : List ℕ) × (pack7_bit hello (length hello) 1 ≡ some out)
    × (unpack7_bit out (length hello) 1 ≡ low7 hello)
    × (length out ≡ byte_count (1 + 7 * length hello))
unpack7_bit-pack7_bit_example = unpack7_bit-pack7_bit hello 1 (omega arith)

extract_bcd_digits-store_bcd_digits_example :
    (length (store_bcd_digits number (length number)) ≡ (length number + 1) / 2)
    × (extract_bcd_digits (store_bcd_digits number (length number)) (length number) ≡ number)
extract_bcd_digits-store_bcd_digits_example = extract_bcd_digits-store_bcd_digits number digits
  where
    digits : (i : ℕ) → i < 5 → (48 ≤ get_or number i 0) × (get_or number i 0 < 58)
    digits ℕ.zero h = omega arith
    digits (ℕ.suc ℕ.zero) h = omega arith
    digits (ℕ.suc (ℕ.suc ℕ.zero)) h = omega arith
    digits (ℕ.suc (ℕ.suc (ℕ.suc ℕ.zero))) h = omega arith
    digits (ℕ.suc (ℕ.suc (ℕ.suc (ℕ.suc ℕ.zero)))) h = omega arith
    digits (ℕ.suc (ℕ.suc (ℕ.suc (ℕ.suc (ℕ.suc i))))) h = absurd (omega arith)

decode_gsm-encode_gsm_example :
    (code : List ℕ) × (encode_gsm false hello false (some blank) (length hello)
      ≡ (length hello, hello, some code))
    × (decode_gsm code (length hello) true none ≡ (map sanitized hello, none))
decode_gsm-encode_gsm_example = decode_gsm-encode_gsm hello blank (omega arith) (omega arith) refl

encode_gsm_signed_example :
    (code : List ℕ) × (encode_gsm true hello false (some blank) (length hello)
      ≡ (length hello, hello, some code))
    × ((j : ℕ) → j < length hello → IsAlnum (get_or hello j 0) → get_or code j 0 ≡ 0xff)
encode_gsm_signed_example = encode_gsm_signed hello blank (omega arith) refl
