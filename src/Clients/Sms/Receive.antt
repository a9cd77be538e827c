-- ===== src/Clients/Sms/Receive.antt =====
-- read of src/clients/sms.cpp: a message is read from the storage and its PDU decoded into the arrays
-- of SMSMessage_t. `none` for a result stands for a write outside of an array.

pub mod Bounds
use a76xx.Prelude.{
  ℕ, ◌+◌, ◌-◌, ◌*◌, ◌/◌, ◌%◌, Bool, true, false, not, Option, none, some, [], ◌∷◌, ◌++◌, ltb, leb,
  ◌==◌, if◌then◌else◌, length, drop, copy_at, tabulate, bit_and, get_or,
}
use a76xx.Prelude.Int.{ℤ, is_zero}
use a76xx.Serial.{Text, ModemSerial, Cmd}
use a76xx.SmsCoding.{unpack7_bit, decode_gsm, extract_bcd_digits, decode_ucs2}
use a76xx.Commands.Sms.{SmsRead}
use a76xx.Commands.Sms.{read as read_cmd}
use a76xx.Clients.{Session}
use a76xx.Clients.Sms.{SmsEncoding, or_empty}

-- SMSMessage_t with its SMS_UserData_t.
pub record SmsMessage : Type 0 where
  pub status : ℤ
  pub sender : Text
  pub raw : Text
  pub raw_len : ℕ
  pub encoding : SmsEncoding
  pub decoded : Text

abbrev pub sms_sender_buffer_len : ℕ
sms_sender_buffer_len = 20

abbrev pub sms_decoded_buffer_len : ℕ
sms_decoded_buffer_len = 161

abbrev pub sms_data_len : ℕ
sms_data_len = 160

-- `src` is written to the array from `off` on, in front of the rest.
unfoldable pub store : {A : Type 0} → Text → ℕ → Text → (Text → Option A) → Option A
store array off src rest =
    if leb (off + length src) (length array) then rest (copy_at array off src) else none

-- decodeGSM of `n` characters in place.
unfoldable pub decode_in_place : {A : Type 0} → Text → ℕ → (Text → Option A) → Option A
decode_in_place array n rest =
    if leb n (length array) then rest (decode_gsm array n true none).0 else none

-- decodeGSM of `n` characters of `input` into `array`.
unfoldable pub decode_into : {A : Type 0} → Text → Text → ℕ → (Text → Option A) → Option A
unfolding or_empty
decode_into input array n rest =
    if leb n (length array) then rest (or_empty (decode_gsm input n false (some array)).1) else none

-- The digits of a number behind an optional plus sign, with the terminating null character.
unfoldable pub number_sender : Text → ℕ → ℕ → Text → Option (Bool × Text)
unfolding store
number_sender pdu at addr_len sender =
    store sender 0 (extract_bcd_digits (drop at pdu) addr_len)
      (λ sender'. store sender' addr_len (0 ∷ []) (λ done'. some (true, done')))

unfoldable pub international_sender : Text → ℕ → ℕ → Text → Option (Bool × Text)
unfolding store
international_sender pdu at addr_len sender = store sender 0 (b'+' ∷ []) (λ plus.
    if ltb (sms_sender_buffer_len - 1) (addr_len + 1)
    then some (false, plus)
    else store plus 1 (extract_bcd_digits (drop at pdu) addr_len)
        (λ sender'. store sender' (addr_len + 1) (0 ∷ []) (λ done'. some (true, done'))))

unfoldable pub alphanumeric_sender : Text → ℕ → ℕ → Text → Option (Bool × Text)
unfolding store decode_in_place
alphanumeric_sender pdu at addr_len sender =
    let char_len = addr_len * 4 / 7 in
    if ltb (sms_sender_buffer_len - 1) char_len
    then some (false, sender)
    else store sender 0 (unpack7_bit (drop at pdu) char_len 0) (λ sender'.
      decode_in_place sender' char_len
        (λ plain. store plain char_len (0 ∷ []) (λ done'. some (true, done'))))

-- The switch on the type of the address: whether it is supported, and `msg->sender`.
unfoldable pub decode_sender : Text → ℕ → ℕ → ℕ → Text → Option (Bool × Text)
unfolding number_sender international_sender alphanumeric_sender
decode_sender pdu type_of_addr at addr_len sender =
    let number_type = bit_and type_of_addr 0x70 in
    if number_type == 0x50
    then alphanumeric_sender pdu at addr_len sender
    else if number_type == 0x10
    then international_sender pdu at addr_len sender
    else if ltb (sms_sender_buffer_len - 1) addr_len
    then some (false, sender)
    else number_sender pdu at addr_len sender

-- The case 0x00 of the switch on the coding: 7-bit characters.
unfoldable pub decode_gsm_data : Text → ℕ → ℕ → ℕ → SmsMessage → Option (Bool × SmsMessage)
unfolding store decode_into
decode_gsm_data pdu at udl fillbits message =
    if ltb sms_data_len udl
    then some (false, message)
    else store message.raw 0 (unpack7_bit (drop at pdu) udl fillbits) (λ raw.
      let message' = record message { raw = raw; raw_len = udl; encoding = SmsEncoding.gsm_char } in
      if ltb (sms_decoded_buffer_len - 1) udl
      then some (false, message')
      else decode_into raw message.decoded udl (λ plain.
        store plain udl (0 ∷ []) (λ text. some (true, record message' { decoded = text }))))

-- The case 0x08: 16-bit characters. memcpy reads `udl` bytes.
unfoldable pub decode_ucs2_data : Text → ℕ → ℕ → SmsMessage → Option (Bool × SmsMessage)
unfolding store
decode_ucs2_data pdu at udl message =
    let decoded_len = udl / 2 in
    if ltb sms_data_len udl
    then some (false, message)
    else store message.raw 0 (tabulate at udl (λ i. get_or pdu i 0)) (λ raw.
      let message' = record message {
        raw = raw;
        raw_len = udl;
        encoding = SmsEncoding.ucs2_char;
      } in
      if ltb (sms_decoded_buffer_len - 1) decoded_len
      then some (false, message')
      else store message.decoded 0 (decode_ucs2 (drop at pdu) decoded_len) (λ plain.
        store plain decoded_len (0 ∷ []) (λ text. some (true, record message' { decoded = text }))))

-- `a - b` on `uint8_t`.
unfoldable pub sub_8 : ℕ → ℕ → ℕ
sub_8 a b = (a + 256 * (1 + b / 256) - b) % 256

-- From the coding scheme on; `at` is where the user data begins.
unfoldable pub decode_data : Text → Bool → ℕ → ℕ → ℕ → SmsMessage → Option (Bool × SmsMessage)
unfolding sub_8 decode_gsm_data decode_ucs2_data
decode_data pdu contains_udh dcs at udl message =
    let header_len = if contains_udh then (get_or pdu at 0 + 1) % 256 else 0 in
    let fillbits = if contains_udh then (7 - header_len % 7) % 7 else 0 in
    if dcs == 0x00
    then decode_gsm_data pdu (at + header_len)
        (if contains_udh then sub_8 udl ((8 * header_len + fillbits) / 7) else udl) fillbits message
    else if dcs == 0x08
    then decode_ucs2_data pdu (at + header_len) (if contains_udh then sub_8 udl header_len else udl)
        message
    else some (false, message)

-- What follows the sender.
unfoldable pub behind_sender :
    Text → Bool → ℕ → ℕ → SmsMessage → Option (Bool × Text) → Option (Bool × SmsMessage)
unfolding decode_data
behind_sender pdu contains_udh at addr_len message none = none
behind_sender pdu contains_udh at addr_len message (some (false, sender)) =
    some (false, record message { sender = sender })
behind_sender pdu contains_udh at addr_len message (some (true, sender)) =
    let pid = at + (addr_len + 1) / 2 in
    decode_data pdu contains_udh (get_or pdu (pid + 1) 0) (pid + 10) (get_or pdu (pid + 9) 0)
      (record message { sender = sender })

-- `pduBuf` as far as it has been written, and what stands behind; a read outside of it gives 0.
unfoldable pub decode_pdu : Text → SmsMessage → Option (Bool × SmsMessage)
unfolding decode_sender behind_sender
decode_pdu pdu message =
    let start = 1 + get_or pdu 0 0 in
    let first_octet = get_or pdu start 0 in
    let contains_udh = not (bit_and first_octet 0x40 == 0) in
    let addr_len = get_or pdu (start + 1) 0 in
    if not (bit_and first_octet 0x03 == 0)
    then some (false, message)
    else behind_sender pdu contains_udh (start + 3) addr_len message
        (decode_sender pdu (get_or pdu (start + 2) 0) (start + 3) addr_len message.sender)

-- The status that the command has read.
unfoldable pub or_status : ℤ → Option ℤ → ℤ
or_status old none = old
or_status old (some status) = status

unfoldable pub decode_read : Text → SmsMessage → ℤ × SmsRead → Option (Bool × SmsMessage)
unfolding or_status decode_pdu
decode_read unset message (retcode, result) =
    let message' = record message { status = or_status message.status result.status } in
    if is_zero retcode
    then decode_pdu (result.stored ++ drop (length result.stored) unset) message'
    else some (false, message')

-- `unset` is what the 200 bytes of `pduBuf` hold at first, `high` and `low` what the variables of the
-- command do.
unfoldable pub read :
    {S F : Type 0}
    → ModemSerial S F
    → Text
    → ℕ
    → ℕ
    → ℕ
    → SmsMessage
    → Cmd (Session S) (Option (Bool × SmsMessage))
unfolding decode_read
read serial unset high low index message c =
    let (result, s) = read_cmd serial true 200 high low true index c.port in
    (decode_read unset message result, record c { port = s })
