-- ===== src/Clients/Sms/Submit.antt =====
-- The PDU that sendSingle of src/clients/sms.cpp builds, read the way GSM 03.40 lays it out.
use a76xx.Prelude.{
  ℕ, ◌+◌, ◌-◌, ◌*◌, ◌/◌, ◌%◌, ◌≤◌, ◌≡◌, refl, ap, Bool, true, false, Option, none, some, [], ◌∷◌,
  ◌++◌, length, length-append, take, drop, take-append, drop-append, ◌==◌, if◌then◌else◌, arith,
}
use a76xx.Serial.{Text}
use a76xx.SmsCoding.{unpack7_bit, extract_bcd_digits, store_bcd_digits}
use a76xx.SmsCoding.Bcd.{IsDigits, extract_bcd_digits-store_bcd_digits}
use a76xx.SmsCoding.Septets.{unpack7_bit-pack7_bit}
use a76xx.SmsCoding.Septets.Value.{low7}
use a76xx.Clients.Sms.{
  SmsEncoding, SmsMultipart, pdu, national_part, length_and_header, body, fill_bits, first_octet,
  or_empty, coding_scheme, header_units,
}

-- The fields of a message to be sent in the 7-bit alphabet.
pub record Submit : Type 0 where
  pub international : Bool
  pub digits : Text
  pub scheme : ℕ
  pub header : Text
  pub septets : Text

-- The user data behind its length: the header, when the first octet announces one, fill bits up to
-- a whole septet, and the septets.
unfoldable pub read_user_data : Bool → ℕ → Text → Text × Text
read_user_data false udl ud = ([], unpack7_bit ud udl 0)
read_user_data true udl [] = ([], [])
read_user_data true udl (header_len ∷ ud) =
    let bits = 8 * (header_len + 1) in
    (
      take header_len ud,
      unpack7_bit (drop header_len ud) (udl - (bits + 6) / 7) ((7 - bits % 7) % 7),
    )

-- What stands behind the address: the protocol, the coding scheme, the length and the user data.
unfoldable pub read_rest : ℕ → ℕ → Text → Text → Option Submit
unfolding read_user_data
read_rest first type_of_addr digits (pid ∷ dcs ∷ udl ∷ ud) =
    let (header, septets) = read_user_data (first / 64 % 2 == 1) udl ud in
    some record {
      international = type_of_addr / 16 % 8 == 1;
      digits = digits;
      scheme = dcs;
      header = header;
      septets = septets;
    }
read_rest first type_of_addr digits _ = none

-- The first octet, the reference, the length and the type of the address, and its digits.
unfoldable pub read_tpdu : Text → Option Submit
unfolding read_rest
read_tpdu (first ∷ reference ∷ n ∷ type_of_addr ∷ rest) =
    read_rest first type_of_addr (extract_bcd_digits (take ((n + 1) / 2) rest) n)
      (drop ((n + 1) / 2) rest)
read_tpdu _ = none

-- The address of the service centre is skipped.
unfoldable pub read_submit : Text → Option Submit
unfolding read_tpdu
read_submit [] = none
read_submit (smsc_len ∷ rest) = read_tpdu (drop smsc_len rest)

-- The header that a part has, behind its length.
unfoldable pub part_header : Option SmsMultipart → Text
part_header none = []
part_header (some m) = 0x00 ∷ 0x03 ∷ m.reference ∷ m.total ∷ m.sequence ∷ []

-- How many characters fit.
unfoldable pub capacity : Option SmsMultipart → ℕ
capacity none = 160
capacity (some m) = 153

-- The length, the header and the body of the message are read back.
user_data_lem :
    (bytes : Text) (multipart : Option SmsMultipart)
    → length bytes ≤ capacity multipart
    → (ud : Text) × (udl : ℕ) × (length_and_header SmsEncoding.gsm_char
            (length bytes % 256)
            multipart
          ++ body SmsEncoding.gsm_char bytes (length bytes % 256) (fill_bits multipart)
        ≡ udl ∷ ud)
      × (read_user_data (first_octet multipart / 64 % 2 == 1) udl ud
          ≡ (part_header multipart, low7 bytes))
      × (length ud ≤ 140)
unfolding capacity length_and_header header_units body fill_bits first_octet read_user_data
    part_header or_empty
user_data_lem bytes none fits =
    let (out, e, r, n) = unpack7_bit-pack7_bit bytes 0 (omega arith) in
    let same : length bytes % 256 ≡ length bytes = omega arith in
    rw (same, e) (out, length bytes, refl, ap (λ t. ([], t)) r, ground arith)
user_data_lem bytes (some m) fits =
    let (out, e, r, n) = unpack7_bit-pack7_bit bytes 1 (omega arith) in
    let same : length bytes % 256 ≡ length bytes = omega arith in
    let header = 0x00 ∷ 0x03 ∷ m.reference ∷ m.total ∷ m.sequence ∷ [] in
    let less : (length bytes + 7) % 256 - 7 ≡ length bytes = omega arith in
    rw (same, e)
      (
        0x05 ∷ 0x00 ∷ 0x03 ∷ m.reference ∷ m.total ∷ m.sequence ∷ out,
        (length bytes + 7) % 256,
        refl,
        rw less (ap (λ t. (header, t)) r),
        ground arith,
      )

-- What a reader is to find.
unfoldable pub expected : Bool × Text → Text → Option SmsMultipart → Submit
unfolding part_header
expected address bytes multipart = record {
  international = address.0;
  digits = address.1;
  scheme = 0;
  header = part_header multipart;
  septets = low7 bytes;
}

type_lem : (b : Bool) → (if b then 0x91 else 0x81) / 16 % 8 == 1 ≡ b
type_lem true = refl
type_lem false = refl

-- A message in the 7-bit alphabet, alone with up to 160 characters or a part with up to 153, to a
-- number of decimal digits with or without a plus sign in front: what sendSingle builds is read as
-- GSM 03.40 lays it out, and gives back the number and whether it is international, the header of the
-- part, and the characters. With up to 24 digits it fits the 160 bytes of `pduBuf`.
pub read_submit-pdu :
    (destination bytes : Text) (multipart : Option SmsMultipart)
    → IsDigits (national_part destination).1
    → length (national_part destination).1 ≤ 24
    → length bytes ≤ capacity multipart
    → (read_submit (
          pdu destination
            (record { encoding = SmsEncoding.gsm_char; bytes = bytes; len = length bytes })
            multipart)
        ≡ some (expected (national_part destination) bytes multipart))
      × (length (
            pdu destination
              (record { encoding = SmsEncoding.gsm_char; bytes = bytes; len = length bytes })
              multipart)
          ≤ 160)
unfolding read_submit pdu coding_scheme expected
read_submit-pdu destination bytes multipart digits short fits =
    let (international, ds) = national_part destination in
    let (count, back) = extract_bcd_digits-store_bcd_digits ds digits in
    let (ud, udl, e, r, n) = user_data_lem bytes multipart fits in
    let same : length ds % 256 ≡ length ds = omega arith in
    let store = store_bcd_digits ds (length ds) in
    let more = 0x00 ∷ 0x00 ∷ udl ∷ ud in
    rw (same, e, ← count, take-append store more, drop-append store more)
      (rw (type_lem international, back, r) refl, omega (arith, length-append store more, count))
