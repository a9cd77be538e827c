-- ===== src/Clients/Sms.antt =====
-- src/clients/sms.h and sms.cpp: the SMS client. Text arrays are lists without the terminating null
-- character, unless a function writes it.
pub mod Send
pub mod Receive
pub mod Comment
pub mod Submit
pub mod Deliver
pub mod Received
mod Tests
use a76xx.Prelude.{
  ℕ, ◌+◌, ◌%◌, Bool, true, false, Option, none, some, List, [], ◌∷◌, ◌++◌, ◌==◌, if◌then◌else◌,
  length, take,
}
use a76xx.Prelude.Int.{ℤ, uint8}
use a76xx.Serial.{Text, ModemSerial, Cmd, ◌>>=◌, ◌>>◌, pure}
use a76xx.SmsCoding.{pack7_bit, store_bcd_digits}
use a76xx.Clients.{Session, assert_bool, lift}
use a76xx.Commands.Sms.{SmsPosition, set_storage, set_notification, list}
use a76xx.Commands.Sms.{send as send_cmd, remove as remove_cmd}

-- SMS_Encoding_t
pub data SmsEncoding : Type 0 where
  gsm_char data_8bit ucs2_char : SmsEncoding

-- SMSMultipart_t
pub record SmsMultipart : Type 0 where
  pub reference : ℕ
  pub total : ℕ
  pub sequence : ℕ

-- SMS_UserData_t; `bytes` is the array `data`.
pub record SmsUserData : Type 0 where
  pub encoding : SmsEncoding
  pub bytes : Text
  pub len : ℕ

abbrev pub sms_data_buffer_len : ℕ
sms_data_buffer_len = 160

module _ {S F : Type 0} (serial : ModemSerial S F) where
  unfoldable pub begin : Cmd (Session S) Bool
  begin = assert_bool (set_storage serial) (assert_bool (set_notification serial) (pure true))

  unfoldable pub list_messages : Bool → ℕ → ℕ → Cmd (Session S) (Option (List SmsPosition))
  list_messages given positions_len status_filter =
      lift (list serial given positions_len status_filter)

  unfoldable pub remove : ℕ → Cmd (Session S) Bool
  remove index = assert_bool (remove_cmd serial index 0) (pure true)

  -- SMSOnMessageRx::process: the index that the callback gets.
  unfoldable pub on_message_rx : Cmd S ℕ
  on_message_rx = do
    serial.find b','
    sms_idx ← serial.parse_int
    serial.find b'\n'
    pure (uint8 sms_idx)

-- The address without a plus sign in front, and whether there is one.
unfoldable pub national_part : Text → Bool × Text
national_part [] = (false, [])
national_part (c ∷ destination) =
    if c == b'+' then (true, destination) else (false, c ∷ destination)

unfoldable pub coding_scheme : SmsEncoding → ℕ
coding_scheme SmsEncoding.data_8bit = 0x04
coding_scheme SmsEncoding.ucs2_char = 0x08
coding_scheme SmsEncoding.gsm_char = 0x00

-- By how much the header makes the user data longer: 7 septets, or 6 bytes.
unfoldable pub header_units : SmsEncoding → ℕ
header_units SmsEncoding.gsm_char = 7
header_units SmsEncoding.ucs2_char = 6
header_units SmsEncoding.data_8bit = 6

-- The length of the user data, and the header of a message in parts.
unfoldable pub length_and_header : SmsEncoding → ℕ → Option SmsMultipart → Text
unfolding header_units
length_and_header encoding udl none = udl ∷ []
length_and_header encoding udl (some multipart) =
    (udl + header_units encoding) % 256
    ∷ 0x05
    ∷ 0x00
    ∷ 0x03
    ∷ multipart.reference
    ∷ multipart.total
    ∷ multipart.sequence
    ∷ []

-- One bit fills up the header of a message in parts to a whole septet.
unfoldable pub fill_bits : Option SmsMultipart → ℕ
fill_bits none = 0
fill_bits (some multipart) = 1

unfoldable pub or_empty : Option Text → Text
or_empty none = []
or_empty (some bytes) = bytes

unfoldable pub body : SmsEncoding → Text → ℕ → ℕ → Text
unfolding or_empty
body SmsEncoding.gsm_char bytes udl fillbits = or_empty (pack7_bit bytes udl fillbits)
body SmsEncoding.data_8bit bytes udl fillbits = take udl bytes
body SmsEncoding.ucs2_char bytes udl fillbits = take udl bytes

-- 0x41 announces a header.
unfoldable pub first_octet : Option SmsMultipart → ℕ
first_octet none = 0x01
first_octet (some multipart) = 0x41

-- What sendSingle writes to `pduBuf`. `daLen` and `udl` are `uint8_t`.
unfoldable pub pdu : Text → SmsUserData → Option SmsMultipart → Text
unfolding national_part coding_scheme length_and_header fill_bits body first_octet
pdu destination message multipart =
    let (international, digits) = national_part destination in
    let da_len = length digits % 256 in
    let udl = message.len % 256 in
    0x00
    ∷ first_octet multipart
    ∷ 0x00
    ∷ da_len
    ∷ (if international then 0x91 else 0x81)
    ∷ (store_bcd_digits digits da_len
        ++ (0x00
            ∷ coding_scheme message.encoding
            ∷ (length_and_header message.encoding udl multipart
                ++ body message.encoding message.bytes udl (fill_bits multipart))))

module _ {S F : Type 0} (serial : ModemSerial S F) where
  -- The command of sendSingle. `pduIdx` is an `uint8_t`.
  unfoldable pub send_pdu : Text → Cmd S ℤ
  send_pdu bytes = send_cmd serial (some (take (length bytes % 256) bytes))

  unfoldable pub send_single : Text → SmsUserData → Option SmsMultipart → Cmd (Session S) Bool
  unfolding pdu send_pdu
  send_single destination message multipart =
      assert_bool (send_pdu (pdu destination message multipart)) (pure true)
