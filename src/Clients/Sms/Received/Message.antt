-- ===== src/Clients/Sms/Received/Message.antt =====
-- `read` of src/clients/sms.cpp from the line of the serial port to the arrays of the message.
use a76xx.Prelude.{
  ℕ, ◌+◌, ◌-◌, ◌≤◌, ◌≡◌, refl, sym, ap, ◌∙◌, true, some, [], ◌∷◌, ◌++◌, length, length-append, drop,
  subst, arith,
}
use a76xx.Prelude.Int.{ℤ}
use a76xx.Serial.{Text, succeeded}
use a76xx.SmsCoding.{pack7_bit}
use a76xx.SmsCoding.Bcd.{IsDigits}
use a76xx.SmsCoding.Gsm.{AllBytes}
use a76xx.Transport.Uart.{Uart, IsLawful, IsPrompt}
use a76xx.Transport.Esp.{ModemSerialEsp}
use a76xx.Transport.Esp.Instance.{esp_serial}
use a76xx.Transport.Esp.Number.Decimal.{IsInt32}
use a76xx.Transport.Esp.Bytes.Reads.{Absent}
use a76xx.Transport.Esp.Dialog.{At}
use a76xx.Clients.{Session}
use a76xx.Clients.Sms.Receive.{SmsMessage, decode_pdu, decode_read, or_status, read}
use a76xx.Clients.Sms.Receive.Bounds.{IsSized}
use a76xx.Clients.Sms.Deliver.{Deliver, Decodes, deliver, fill_of, count_of}
use a76xx.Clients.Sms.Deliver.Decode.{decode_pdu-deliver}
use a76xx.Clients.Sms.Received.{module_answer, command_at}

-- The bytes of a message behind the length of the part of the service centre.
behind_first : (m : Deliver) (packed : Text) → Text
behind_first m packed = drop 1 (deliver m packed)

-- The length that the module announces: the bytes without the part of the service centre.
unfoldable pub announced : Deliver → Text → ℕ
announced m packed = length (deliver m packed) - 1 - length m.smsc

first_byte_lem :
    (m : Deliver) (packed : Text) → deliver m packed ≡ length m.smsc ∷ drop 1 (deliver m packed)
unfolding deliver
first_byte_lem m packed = refl

announced_lem :
    (m : Deliver) (packed : Text)
    → length (drop 1 (deliver m packed)) ≡ length m.smsc + announced m packed
unfolding deliver announced
announced_lem m packed = grind (arith, length-append)

-- What `decode_read` makes of the bytes that the command has stored.
decode_read-deliver :
    (m : Deliver) (packed unset : Text) (message : SmsMessage) (status : ℤ)
    → pack7_bit m.text (length m.text) (fill_of m.header) ≡ some packed
    → IsDigits m.digits
    → length m.digits ≤ 18
    → length m.stamp ≡ 7
    → count_of m.header (length m.text) ≤ 160
    → IsSized message
    → (message' : SmsMessage) × (decode_read unset message (
      succeeded,
      record {
        stored = length m.smsc ∷ drop 1 (deliver m packed);
        msg_len = some (length (length m.smsc ∷ drop 1 (deliver m packed)));
        status = some status;
      },
    )
        ≡ some (true, message'))
      × Decodes m (record message { status = status }) message'
unfolding decode_read or_status
decode_read-deliver m packed unset message status e is short stamped fits sized =
    let pdu = length m.smsc ∷ drop 1 (deliver m packed) in
    let old : SmsMessage = record message { status = status } in
    let (other, e', (message', done, found)) =
      decode_pdu-deliver m (drop (length pdu) unset) old is short stamped fits
        (record { sender = sized.sender; raw = sized.raw; decoded = sized.decoded }) in
    let same : other ≡ packed = cc (e, e') in
    let rest = drop (length pdu) unset in
    (
      message',
      ap (λ (p : Text). decode_pdu (p ++ rest) old)
            (sym (first_byte_lem m packed) ∙ ap (λ (q : Text). deliver m q) (sym same))
          ∙ done,
      found,
    )

-- `read` of the SMS client over the transport of the ESP-IDF, on a line that brings at once what the
-- module answers to AT+CMGF and AT+CMGR, with no URCs to handle: a message in the 7-bit alphabet of at
-- most 200 bytes, from a number of up to 18 digits, laid out as GSM 03.40 says and shown in
-- hexadecimal behind its status, a name without a comma, and its length, is read and decoded, whatever
-- the buffers held: the call succeeds, the message is the one that was sent, with the status that was
-- announced, the last error is as before, and exactly the answer has been taken from the line.
pub read-deliver :
    {U F : Type 0} (driver : Uart U) (incoming : U → Text) (beyond : Text) (strtof : Text → F)
    (zero_f : F) (m : Deliver) (packed alpha unset rest : Text) (high low index : ℕ) (status : ℤ)
    (message : SmsMessage) (c : Session (ModemSerialEsp U))
    → IsLawful driver incoming
    → IsPrompt driver incoming
    → pack7_bit m.text (length m.text) (fill_of m.header) ≡ some packed
    → IsDigits m.digits
    → length m.digits ≤ 18
    → length m.stamp ≡ 7
    → count_of m.header (length m.text) ≤ 160
    → AllBytes (deliver m packed)
    → length (deliver m packed) ≤ 200
    → IsSized message
    → IsInt32 status
    → Absent b',' alpha
    → At driver incoming c.port
        (module_answer status alpha (announced m packed) (deliver m packed) rest)
    → (message' : SmsMessage) × ((s : ModemSerialEsp U) × (read
            (esp_serial driver incoming [] beyond strtof zero_f)
            unset
            high
            low
            index
            message
            c
          ≡ (some (true, message'), record { last_error = c.last_error; port = s }))
        × At driver incoming s rest)
      × Decodes m (record message { status = status }) message'
unfolding read
read-deliver driver incoming beyond strtof zero_f m packed alpha unset rest high low index status
      message c law prompt e is short stamped fits bytes enough sized int absent at =
    let tail = drop 1 (deliver m packed) in
    let whole = first_byte_lem m packed in
    let (s, stored, behind) =
      command_at driver incoming beyond strtof zero_f law prompt high low index (announced m packed)
        status alpha (length m.smsc) tail rest c.port int absent
        (subst (λ (p : Text). AllBytes p) whole bytes) (announced_lem m packed)
        (omega (arith, enough, ap (λ (p : Text). length p) whole))
        (subst
          (λ (p : Text).
            At driver incoming c.port (module_answer status alpha (announced m packed) p rest))
          whole at) in
    let (message', done, found) =
      decode_read-deliver m packed unset message status e is short stamped fits sized in
    let decodes = ap (λ r. (decode_read unset message r.0, record c { port = r.1 })) stored in
    (message', (s, decodes ∙ ap (λ r. (r, record c { port = s })) done, behind), found)
