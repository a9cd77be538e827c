-- ===== src/Clients/Sms/Tests.antt =====
-- Runs of the SMS client: a message of the GSM specification, and a text in one part.
use a76xx.Prelude.{
  if◌then◌else◌, ltb, ◌≤◌, ℕ, ◌≡◌, refl, Bool, true, false, ◌++◌, Option, none, some, [], ◌∷◌, map,
  length, replicate, take, codes, arith,
}
use a76xx.Prelude.Int.{pos}
use a76xx.Serial.{Text}
use a76xx.Serial.Script.{Script, scripted}
use a76xx.Clients.Steps.{Follows}
use a76xx.SmsCoding.Bcd.{IsDigits}
use a76xx.Clients.Sms.Submit.{read_submit, expected, capacity, read_submit-pdu}
use a76xx.Clients.{Session}
use a76xx.Clients.Sms.{SmsEncoding, SmsMultipart, pdu, national_part, send_pdu}
use a76xx.Clients.Sms.Send.{send}
use a76xx.Clients.Sms.Send.Chunks.{chunks, join, part_size, part_count, parts_info, AllFit}
use a76xx.Clients.Sms.Send.Parts.{part_pdus, send-Follows}
use a76xx.SmsCoding.{pack7_bit}
use a76xx.Clients.Sms.Deliver.{Deliver, Decodes, count_of, fill_of, deliver as write_deliver}
use a76xx.Clients.Sms.Deliver.Decode.{decode_pdu-deliver}
use a76xx.Clients.Sms.Receive.{SmsMessage, decode_pdu, decode_read}
use a76xx.Clients.Sms.Receive.Bounds.{IsSized, Holds, decode_read_lem}

abbrev empty_message : SmsMessage
empty_message = record {
  status = pos 0;
  sender = replicate 20 0;
  raw = replicate 160 0;
  raw_len = 0;
  encoding = SmsEncoding.data_8bit;
  decoded = replicate 161 0;
}

-- "hello" from +49123.
abbrev deliver : Text
deliver =
    0x00 ∷ 0x04 ∷ 5 ∷ 0x91 ∷ 0x94 ∷ 0x21 ∷ 0xF3 ∷ 0x00 ∷ 0x00 ∷ 0x42 ∷ 0x10 ∷ 0x10 ∷ 0x21 ∷ 0x43
    ∷ 0x65 ∷ 0x00 ∷ 5 ∷ 0xE8 ∷ 0x32 ∷ 0x9B ∷ 0xFD ∷ 0x06 ∷ []

texts : Option (Bool × SmsMessage) → Text × Text
texts none = ([], [])
texts (some (sent, message)) = (take 6 message.sender, take 5 message.decoded)

unfoldable received : Text × Text
unfolding texts decode_pdu
received = texts (decode_pdu deliver empty_message)

decode_read_lem_example :
    Holds
      (λ r. IsSized r.1)
      (decode_read [] empty_message
        (pos 0, record { stored = deliver; msg_len = none; status = none }))
decode_read_lem_example =
    decode_read_lem [] empty_message
      (pos 0, record { stored = deliver; msg_len = none; status = none })
      (record { sender = refl; raw = refl; decoded = refl })

send-Follows_example :
    let text : Text = replicate 200 b'a' in
    let parts = chunks (part_size text) (part_count text) text in
    (join parts ≡ text)
    × (length parts ≡ part_count text)
    × AllFit (part_size text) parts
    × Follows
        (map (send_pdu scripted) (part_pdus false (codes "+49123") (parts_info text 123) 1 parts))
        (λ c.
          let ((sent, reference), c') =
            send scripted false (codes "+49123") text (replicate 160 0) 123 c in
          (sent, c'))
    × ((c : Session Script)
        → (send scripted false (codes "+49123") text (replicate 160 0) 123 c).0.1
          ≡ (if ltb 1 (length parts) then 124 else 123))
send-Follows_example =
    send-Follows scripted false (codes "+49123") (replicate {A = ℕ} 200 b'a') (replicate 160 0) 123
      (omega arith) (omega arith) refl

part_two : Option SmsMultipart
part_two = some record { reference = 123; total = 3; sequence = 2 }

number_of_IsDigits : IsDigits (national_part (codes "+49123")).1
unfolding national_part
number_of_IsDigits i h = ground arith

read_submit-pdu_example :
    (read_submit (
        pdu
          (codes "+49123")
          (record { encoding = SmsEncoding.gsm_char; bytes = codes "hello"; len = 5 })
          part_two)
      ≡ some (expected (national_part (codes "+49123")) (codes "hello") part_two))
    × (length (
          pdu
            (codes "+49123")
            (record { encoding = SmsEncoding.gsm_char; bytes = codes "hello"; len = 5 })
            part_two)
        ≤ 160)
unfolding part_two national_part capacity
read_submit-pdu_example =
    read_submit-pdu (codes "+49123") (codes "hello") part_two number_of_IsDigits (omega arith)
      (omega arith)

-- The second of three parts, from an international number, by way of a service centre.
abbrev part_received : Deliver
part_received = record {
  smsc = 0x91 ∷ 0x94 ∷ 0x21 ∷ [];
  international = true;
  digits = codes "49123";
  stamp = replicate 7 0;
  header = some (0x00 ∷ 0x03 ∷ 123 ∷ 3 ∷ 2 ∷ []);
  text = codes "hello";
}

sender_IsDigits : IsDigits (codes "49123")
sender_IsDigits i h = ground arith

fits_in_160 : count_of part_received.header (length part_received.text) ≤ 160
unfolding count_of
fits_in_160 = omega arith

decode_pdu-deliver_example :
    (packed : Text) × (pack7_bit (codes "hello") 5 (fill_of part_received.header) ≡ some packed)
    × ((message' : SmsMessage) × (decode_pdu
            (write_deliver part_received packed ++ replicate 10 7)
            empty_message
          ≡ some (true, message'))
        × Decodes part_received empty_message message')
decode_pdu-deliver_example =
    decode_pdu-deliver part_received (replicate 10 7) empty_message sender_IsDigits (omega arith)
      refl fits_in_160 (record { sender = refl; raw = refl; decoded = refl })
