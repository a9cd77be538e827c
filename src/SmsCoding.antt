-- ===== src/SmsCoding.antt =====
-- src/utils/smsCoding.cpp: the codings of a short message. An array that a function fills through
-- a pointer is its result. A byte is a number below 256, and `char` is unsigned, as on the
-- microcontroller, unless a function takes its signedness.
pub mod Hex
pub mod Septets
pub mod Gsm
pub mod Bcd
pub mod Lengths
pub mod Reads
mod Tests
use a76xx.Prelude.Int.{pos, int8, eq_ℤ}
use a76xx.Prelude.{
  ℕ, zero, suc, ◌+◌, ◌-◌, ◌*◌, ◌/◌, ◌%◌, ◌^◌, bit_and, bit_or, Bool, true, false, not, ◌&&◌, ◌||◌,
  Option, none, some, List, [], ◌∷◌, ltb, leb, ◌==◌, if◌then◌else◌, length, get_or, set, take,
}

-- hexToNibble
pub hex_to_nibble : ℕ → ℕ
hex_to_nibble c = (bit_and c 0xf + (if leb b'A' c then 9 else 0)) % 256

-- hexPairToByte
pub hex_pair_to_byte : ℕ → ℕ → ℕ
hex_pair_to_byte high low = bit_or (hex_to_nibble high * 2 ^ 4) (hex_to_nibble low) % 256

pub nibble2hex : ℕ → ℕ
nibble2hex nibble = if ltb nibble 10 then nibble + b'0' else nibble - 10 + b'A'

-- byteTohexPair: the characters for the high and the low half.
pub byte_to_hex_pair : ℕ → ℕ × ℕ
byte_to_hex_pair input = (nibble2hex (input / 2 ^ 4), nibble2hex (bit_and input 0x0f))

-- checkHexDec
pub check_hex_dec : ℕ → Bool
check_hex_dec c =
    if leb b'0' c && leb c b'9' then true else if leb b'A' c && leb c b'F' then true else false

-- `input[inputIdx++]`: the next byte, and the bytes behind it. The index cannot wrap, as it stays
-- below the number of characters. A read past the end gives 0.
abbrev pub next : List ℕ → ℕ × List ℕ
next [] = (0, [])
next (b ∷ bs) = (b, bs)

-- The loop of unpack7Bit. `bit_buffer` has 32 bits, `bits_in_count` at most 14 of them in use.
pub unpack_loop : ℕ → ℕ → List ℕ → ℕ → List ℕ
unpack_loop bit_buffer bits_in_count input zero = []
unpack_loop bit_buffer bits_in_count input (suc left) =
    let load = ltb bits_in_count 7 in
    let (byte, rest) = next input in
    let buffer =
      if load then bit_or bit_buffer (byte * 2 ^ bits_in_count % 2 ^ 32) else bit_buffer in
    let bits = if load then bits_in_count + 8 else bits_in_count in
    bit_and (buffer % 256) 0x7f
    ∷ unpack_loop (buffer / 2 ^ 7) (bits - 7) (if load then rest else input) left

-- unpack7Bit
pub unpack7_bit : List ℕ → ℕ → ℕ → List ℕ
unpack7_bit input eval_chars fillbits =
    let (byte, rest) = next input in
    if not (fillbits == 0)
    then unpack_loop (byte / 2 ^ fillbits) (8 - fillbits) rest eval_chars
    else unpack_loop 0 0 input eval_chars

-- The inner loop of pack7Bit: characters are added until a byte is full or none is left.
unfoldable pub fill_buffer : ℕ → ℕ → List ℕ → ℕ × ℕ × List ℕ
fill_buffer bit_buffer bits_in_count [] = (bit_buffer, bits_in_count, [])
fill_buffer bit_buffer bits_in_count (c ∷ input) =
    let more =
      fill_buffer (bit_or bit_buffer (bit_and c 0x7f * 2 ^ bits_in_count) % 2 ^ 16)
        (bits_in_count + 7) input in
    if ltb bits_in_count 8 then more else (bit_buffer, bits_in_count, c ∷ input)

abbrev pub is_nil : List ℕ → Bool
is_nil [] = true
is_nil (x ∷ xs) = false

-- The outer loop of pack7Bit, on fuel; `Septets.Pack.pack_loop_total` shows how much is enough.
unfoldable pub pack_loop : ℕ → ℕ → ℕ → List ℕ → Option (List ℕ)
pack_loop zero bit_buffer bits_in_count input = none
pack_loop (suc fuel) bit_buffer bits_in_count input =
    let (buffer, bits, rest) = fill_buffer bit_buffer bits_in_count input in
    let bits_left = bits - (if ltb bits 8 then bits else 8) in
    let again = pack_loop fuel (buffer / 2 ^ 8) bits_left rest in
    elim (ltb 0 bits_left || not (is_nil rest)) [
      | true ↦ elim again [ none ↦ none | some out ↦ some (bit_and buffer 0xff ∷ out) ]
      | false ↦ some (bit_and buffer 0xff ∷ [])
    ]

-- pack7Bit: `packedBytes` is the length of the result.
unfoldable pub pack7_bit : List ℕ → ℕ → ℕ → Option (List ℕ)
pack7_bit input num_chars fillbits = pack_loop (num_chars + 2) 0 fillbits (take num_chars input)

-- The `replaceChar` of decodeGSM; 0 keeps the character.
pub decode_replace : ℕ → ℕ
decode_replace c =
    if c == 0x24 || c == 0x40
    then b'?'
    else if (leb 0x20 c && leb c 0x5a) || (leb 0x61 c && leb c 0x7a) || c == 0x0a || c == 0x0d
    then 0
    else if c == 0
    then b'@'
    else if c == 2
    then b'$'
    else if c == 0x11
    then b'_'
    else b'?'

-- The loop of decodeGSM over indices from `i`, on the two arrays.
pub decode_loop : Bool → ℕ → ℕ → List ℕ × List ℕ → List ℕ × List ℕ
decode_loop overwrite i zero arrays = arrays
decode_loop overwrite i (suc n) (input, output) =
    let c = get_or input i 0 in
    let r = decode_replace c in
    decode_loop overwrite (i + 1) n (
      if overwrite
      then ((if not (r == 0) then set input i r else input), output)
      else (input, set output i (if not (r == 0) then r else c)))

-- decodeGSM: `none` for `output` is a null pointer. The results are the two arrays.
pub decode_gsm : List ℕ → ℕ → Bool → Option (List ℕ) → List ℕ × Option (List ℕ)
decode_gsm input num_chars true output = ((decode_loop true 0 num_chars (input, [])).0, output)
decode_gsm input num_chars false none = (input, none)
decode_gsm input num_chars false (some output) =
    (input, some (decode_loop false 0 num_chars (input, output)).1)

-- The `replaceChar` of encodeGSM; 0xFF is meant to keep the character.
pub encode_replace : ℕ → ℕ
encode_replace c =
    if c == b'$'
    then 2
    else if c == b'@'
    then 0
    else if (leb 0x20 c && leb c 0x5a) || (leb 0x61 c && leb c 0x7a) || c == 0x0a || c == 0x0d
    then 0xff
    else if c == b'_'
    then 0x11
    else b'?'

-- `replaceChar != 0xFF`: both are promoted to `int`, the `char` by its sign.
abbrev pub replaces : Bool → ℕ → Bool
replaces char_is_signed r = not (eq_ℤ (if char_is_signed then int8 (pos r) else pos r) (pos 0xff))

-- The loop of encodeGSM over indices from `i`, on the two arrays.
pub encode_loop : Bool → Bool → ℕ → ℕ → List ℕ × List ℕ → List ℕ × List ℕ
encode_loop char_is_signed overwrite i zero arrays = arrays
encode_loop char_is_signed overwrite i (suc n) (input, output) =
    let c = get_or input i 0 in
    let r = encode_replace c in
    encode_loop char_is_signed overwrite (i + 1) n (
      if overwrite
      then ((if replaces char_is_signed r then set input i r else input), output)
      else (input, set output i (if replaces char_is_signed r then r else c)))

-- encodeGSM: the number of characters, and the two arrays. `input` has no terminating null
-- character here, so `strlen` is its length.
pub encode_gsm : Bool → List ℕ → Bool → Option (List ℕ) → ℕ → ℕ × List ℕ × Option (List ℕ)
encode_gsm char_is_signed input true output len =
    let input_len = if not (len == 0) then len else length input % 2 ^ 16 in
    (input_len, (encode_loop char_is_signed true 0 input_len (input, [])).0, output)
encode_gsm char_is_signed input false none len = (0, input, none)
encode_gsm char_is_signed input false (some output) len =
    let input_len = if not (len == 0) then len else length input % 2 ^ 16 in
    (input_len, input, some (encode_loop char_is_signed false 0 input_len (input, output)).1)

-- extractBcdDigits from index `i`.
pub extract_from : List ℕ → ℕ → ℕ → List ℕ
extract_from input i zero = []
extract_from input i (suc n) =
    (bit_and (get_or input (i / 2) 0 / 2 ^ (bit_and i 1 * 2 ^ 2)) 0x0f + b'0') % 256
    ∷ extract_from input (i + 1) n

pub extract_bcd_digits : List ℕ → ℕ → List ℕ
extract_bcd_digits input num_digits = extract_from input 0 num_digits

-- One byte of storeBcdDigits: only the low 8 bits of the `int` are stored. Behind the last
-- character stands the null character.
unfoldable pub bcd_byte : List ℕ → ℕ → ℕ
bcd_byte input i =
    bit_or ((get_or input (i * 2) 0 + 256 - b'0') % 256)
      ((get_or input (i * 2 + 1) 0 + 256 - b'0') % 256 * 2 ^ 4 % 256)

unfoldable pub store_from : List ℕ → ℕ → ℕ → List ℕ
store_from input i zero = []
store_from input i (suc n) = bcd_byte input i ∷ store_from input (i + 1) n

-- storeBcdDigits. `numDigits + 1` is an `int` and does not wrap.
unfoldable pub store_bcd_digits : List ℕ → ℕ → List ℕ
store_bcd_digits input num_digits =
    let num_bytes = (num_digits + 1) / 2 in
    let output = store_from input 0 num_bytes in
    if not (bit_and num_digits 1 == 0)
    then set output (num_bytes - 1) (bit_or (get_or output (num_bytes - 1) 0) 0xf0)
    else output

-- decodeUCS2: two bytes for a character, the high one first.
pub decode_ucs2_from : List ℕ → ℕ → ℕ → List ℕ
decode_ucs2_from input i zero = []
decode_ucs2_from input i (suc n) =
    let val = bit_or (get_or input (2 * i) 0 * 2 ^ 8) (get_or input (2 * i + 1) 0) % 2 ^ 16 in
    (if ltb val 0x80 then bit_and val 0xff else b'?') ∷ decode_ucs2_from input (i + 1) n

pub decode_ucs2 : List ℕ → ℕ → List ℕ
decode_ucs2 input eval_chars = decode_ucs2_from input 0 eval_chars
