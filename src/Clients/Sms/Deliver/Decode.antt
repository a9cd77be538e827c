-- ===== src/Clients/Sms/Deliver/Decode.antt =====
-- The decoding of a whole message by `read` of src/clients/sms.cpp.
use a76xx.Prelude.{
  ℕ, suc, ◌+◌, ◌*◌, ◌/◌, ◌≤◌, ◌≡◌, refl, sym, ap, ◌∙◌, Bool, true, false, not, some, ◌∷◌, ◌++◌,
  length, get_or, drop, drop-append, drop-drop, get_or-drop, get_or-append, append_assoc, ◌==◌,
  if◌then◌else◌, bit_and, arith,
}
use a76xx.Serial.{Text}
use a76xx.SmsCoding.{pack7_bit, unpack7_bit, store_bcd_digits}
use a76xx.SmsCoding.Bcd.{IsDigits, extract_bcd_digits-store_bcd_digits}
use a76xx.SmsCoding.Septets.{unpack7_bit-pack7_bit}
use a76xx.SmsCoding.Septets.Value.{low7}
use a76xx.Clients.Sms.Receive.{SmsMessage, behind_sender, decode_pdu}
use a76xx.Clients.Sms.Receive.Bounds.{IsSized}
use a76xx.Clients.Sms.Deliver.{Deliver, Decodes, deliver, fill_of, count_of, header_of, has_header}
use a76xx.Clients.Sms.Deliver.Fields.{sender_lem, gsm_lem, data_lem, fill_small, le-count_of}

at_drop : (k j : ℕ) (xs ys : Text) → drop k xs ≡ ys → get_or xs (k + j) 0 ≡ get_or ys j 0
at_drop k j xs ys e = sym (get_or-drop k xs j 0) ∙ ap (λ (t : Text). get_or t j 0) e

-- The first octet announces a message that was received, and perhaps a header.
first_lem :
    (b : Bool)
    → (bit_and (if b then 0x44 else 0x04) 0x03 == 0 ≡ true)
      × (not (bit_and (if b then 0x44 else 0x04) 0x40 == 0) ≡ b)
first_lem true = (refl, refl)
first_lem false = (refl, refl)

module _ (m : Deliver) (packed tail : Text) (stamped : length m.stamp ≡ 7)
    (counted : length (store_bcd_digits m.digits (length m.digits))
      ≡ (length m.digits + 1) / 2) where
  abbrev address : Text
  address = store_bcd_digits m.digits (length m.digits)

  abbrev user_data : Text
  user_data = header_of m.header ++ (packed ++ tail)

  abbrev behind_address : Text
  behind_address = 0 ∷ 0 ∷ (m.stamp ++ (count_of m.header (length m.text) ∷ user_data))

  abbrev pdu : Text
  pdu = deliver m packed ++ tail

  abbrev start : ℕ
  start = 1 + length m.smsc

  abbrev pid : ℕ
  pid = start + 3 + (length m.digits + 1) / 2

  behind_smsc :
      drop start pdu
      ≡ (if has_header m.header then 0x44 else 0x04)
        ∷ length m.digits
        ∷ (if m.international then 0x91 else 0x81)
        ∷ (address ++ behind_address)
  unfolding deliver
  behind_smsc =
      let e : 1 + length m.smsc ≡ suc (length m.smsc) = omega arith in
      rw e (simp (append_assoc) (drop-append m.smsc _))

  behind_type : drop (start + 3) pdu ≡ address ++ behind_address
  behind_type = drop-drop start 3 pdu ∙ ap (λ (t : Text). drop 3 t) behind_smsc

  behind_sender_lem : drop pid pdu ≡ behind_address
  behind_sender_lem =
      drop-drop (start + 3) ((length m.digits + 1) / 2) pdu
      ∙ ap (λ (t : Text). drop ((length m.digits + 1) / 2) t) behind_type
      ∙ rw (← counted) (drop-append address behind_address)

  length_lem : get_or pdu (pid + 9) 0 ≡ count_of m.header (length m.text)
  length_lem =
      at_drop pid 9 pdu behind_address behind_sender_lem
      ∙ get_or-append m.stamp (count_of m.header (length m.text) ∷ user_data) 7 0
      ∙ ground (arith, stamped)

  data_begins : drop (pid + 10) pdu ≡ user_data
  data_begins =
      drop-drop pid 10 pdu
      ∙ ap (λ (t : Text). drop 10 t) behind_sender_lem
      ∙ (let e : 8 ≡ length m.stamp + 1 = omega arith in
          ap (λ k. drop k (m.stamp ++ (count_of m.header (length m.text) ∷ user_data))) e
          ∙ drop-drop (length m.stamp) 1 _
          ∙ ap (λ (t : Text). drop 1 t) (drop-append m.stamp _))

  first_octet_lem : get_or pdu start 0 ≡ (if has_header m.header then 0x44 else 0x04)
  first_octet_lem =
      ap (λ k. get_or pdu k 0) (let e : start ≡ start + 0 = omega arith in e)
      ∙ at_drop start 0 pdu _ behind_smsc

  smsc_lem : get_or pdu 0 0 ≡ length m.smsc
  unfolding deliver
  smsc_lem = refl

  decode_lem :
      (message : SmsMessage)
      → IsDigits m.digits
      → length m.digits ≤ 18
      → count_of m.header (length m.text) ≤ 160
      → IsSized message
      → unpack7_bit packed (length m.text) (fill_of m.header) ≡ low7 m.text
      → fill_of m.header + 7 * length m.text ≤ 8 * length packed
      → (message' : SmsMessage) × (decode_pdu pdu message ≡ some (true, message'))
        × Decodes m message message'
  unfolding decode_pdu behind_sender
  decode_lem message is short fits sized back enough =
      let (sender, sent, as_shown) =
        sender_lem pdu (start + 3) m.digits behind_address message.sender m.international is short
          sized.sender behind_type in
      let message1 : SmsMessage = record message { sender = sender } in
      let header_len = length (header_of m.header) in
      let text_begins : drop (pid + 10 + header_len) pdu ≡ packed ++ tail =
        drop-drop (pid + 10) header_len pdu
        ∙ ap (λ (t : Text). drop header_len t) data_begins
        ∙ drop-append (header_of m.header) (packed ++ tail) in
      let (message', done, same, raw, raw_len, encoding, plain, status) =
        gsm_lem pdu (pid + 10 + header_len) (fill_of m.header) m.text packed tail message1 sized.raw
          sized.decoded (omega (arith, le-count_of m.header (length m.text))) (fill_small m.header)
          back enough text_begins in
      let is_data =
        data_lem pdu (pid + 10) m.header m.text packed tail message1 sized.raw sized.decoded fits
          back enough data_begins in
      let (received, announced) = first_lem (has_header m.header) in
      (
        message',
        rw
            (
              smsc_lem,
              first_octet_lem,
              received,
              announced,
              at_drop start 1 pdu _ behind_smsc,
              at_drop start 2 pdu _ behind_smsc,
              sent,
            )
            (rw (at_drop pid 1 pdu _ behind_sender_lem, length_lem, is_data, done) refl),
        record {
          sender = rw same as_shown;
          raw = raw;
          raw_len = raw_len;
          encoding = encoding;
          decoded_text = plain;
          status = status;
        },
      )

-- Any message in the 7-bit alphabet, from a number of up to 18 decimal digits, with or without a
-- header, whose user data has up to 160 septets: written as GSM 03.40 lays it out, with its text
-- packed by pack7Bit, it is decoded by `read`, whatever stands behind it in the buffer: to the
-- number, with a plus sign if it is international, the 7-bit codes, and the text.
pub decode_pdu-deliver :
    (m : Deliver) (tail : Text) (message : SmsMessage)
    → IsDigits m.digits
    → length m.digits ≤ 18
    → length m.stamp ≡ 7
    → count_of m.header (length m.text) ≤ 160
    → IsSized message
    → (packed : Text) × (pack7_bit m.text (length m.text) (fill_of m.header) ≡ some packed)
      × ((message' : SmsMessage) × (decode_pdu (deliver m packed ++ tail) message
            ≡ some (true, message'))
          × Decodes m message message')
decode_pdu-deliver m tail message is short stamped fits sized =
    let fill = fill_of m.header in
    let (packed, e, back, count) = unpack7_bit-pack7_bit m.text fill (fill_small m.header) in
    let counted = (extract_bcd_digits-store_bcd_digits m.digits is).0 in
    let enough : fill + 7 * length m.text ≤ 8 * length packed = grind (arith, count) in
    (packed, e, decode_lem m packed tail stamped counted message is short fits sized back enough)
