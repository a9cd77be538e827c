-- ===== src/SmsCoding/Hex.antt =====
-- Bytes and pairs of hexadecimal digits: every byte is printed as two digits that are read back,
-- and two digits are the ones printed for the byte that they give.
use a76xx.Prelude.{
  ℕ, ◌+◌, ◌*◌, ◌/◌, ◌%◌, ◌<◌, ◌≡◌, refl, Bool, true, not, ◌&&◌, ◌||◌, arith, ltb, ◌==◌, ==_iff,
}
use a76xx.Prelude.Bits.{holds_under, holds_under_sound, shifted_bit_or, bit_and_mask}
use a76xx.SmsCoding.{hex_to_nibble, hex_pair_to_byte, nibble2hex, byte_to_hex_pair, check_hex_dec}

nibble_test : ℕ → Bool
nibble_test n = check_hex_dec (nibble2hex n) && hex_to_nibble (nibble2hex n) == n

nibble_table : holds_under 16 nibble_test ≡ true
unfolding holds_under nibble_test check_hex_dec nibble2hex hex_to_nibble
nibble_table = refl

hex-nibble :
    (n : ℕ) → n < 16 → (check_hex_dec (nibble2hex n) ≡ true) × (hex_to_nibble (nibble2hex n) ≡ n)
unfolding nibble_test
hex-nibble n h = ground (
  arith,
  holds_under_sound 16 nibble_test n nibble_table,
  ==_iff (hex_to_nibble (nibble2hex n)) n,
)

digit_test : ℕ → Bool
digit_test c =
    not (check_hex_dec c) || (ltb (hex_to_nibble c) 16 && nibble2hex (hex_to_nibble c) == c)

digit_table : holds_under 256 digit_test ≡ true
unfolding holds_under digit_test check_hex_dec nibble2hex hex_to_nibble
digit_table = refl

nibble-hex :
    (c : ℕ)
    → c < 256
    → check_hex_dec c ≡ true
    → (hex_to_nibble c < 16) × (nibble2hex (hex_to_nibble c) ≡ c)
unfolding digit_test
nibble-hex c h d =
    ground (
      arith,
      holds_under_sound 256 digit_test c digit_table,
      ==_iff (nibble2hex (hex_to_nibble c)) c,
    )

-- The characters that `byteTohexPair` gives for a byte pass `checkHexDec`, and `hexPairToByte`
-- reads the byte back.
pub hex_pair_to_byte-byte_to_hex_pair :
    (b : ℕ)
    → b < 256
    → let (high, low) = byte_to_hex_pair b in
      (check_hex_dec high ≡ true) × (check_hex_dec low ≡ true) × (hex_pair_to_byte high low ≡ b)
unfolding byte_to_hex_pair hex_pair_to_byte
hex_pair_to_byte-byte_to_hex_pair b h =
    let l = bit_and_mask 4 b in
    let high = hex-nibble (b / 16) (omega arith) in
    let low = hex-nibble (b % 16) (omega arith) in
    rw (l, high.1, low.1, shifted_bit_or 4 (b / 16) (b % 16) (omega arith))
      (high.0, low.0, omega arith)

-- Two characters that pass `checkHexDec` are those that `byteTohexPair` gives for the byte that
-- `hexPairToByte` reads from them, and that byte is below 256.
byte_to_hex_pair-hex_pair_to_byte :
    (high low : ℕ)
    → high < 256
    → low < 256
    → check_hex_dec high ≡ true
    → check_hex_dec low ≡ true
    → (byte_to_hex_pair (hex_pair_to_byte high low) ≡ (high, low))
      × (hex_pair_to_byte high low < 256)
unfolding byte_to_hex_pair hex_pair_to_byte
byte_to_hex_pair-hex_pair_to_byte high low hh hl dh dl =
    let n = nibble-hex high hh dh in
    let m = nibble-hex low hl dl in
    let byte = hex_to_nibble high * 16 + hex_to_nibble low in
    let e : byte % 256 ≡ byte = omega arith in
    let q : byte / 16 ≡ hex_to_nibble high = omega arith in
    let r : byte % 16 ≡ hex_to_nibble low = omega arith in
    rw
      (
        shifted_bit_or 4 (hex_to_nibble high) (hex_to_nibble low) m.0,
        e,
        bit_and_mask 4 byte,
        q,
        r,
        n.1,
        m.1,
      )
      (refl, omega arith)
