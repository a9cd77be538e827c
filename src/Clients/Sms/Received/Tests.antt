-- ===== src/Clients/Sms/Received/Tests.antt =====
-- A run of `read` of src/clients/sms.cpp over the transport: the first of two parts of a message.
use a76xx.Prelude.{◌≤◌, ◌≡◌, refl, true, some, [], ◌∷◌, length, replicate, codes, arith}
use a76xx.Prelude.Int.{pos}
use a76xx.Ring.{init, get_used}
use a76xx.Serial.{Text}
use a76xx.SmsCoding.{pack7_bit, pack_loop, fill_buffer, store_bcd_digits, store_from, bcd_byte}
use a76xx.SmsCoding.Bcd.{IsDigits}
use a76xx.SmsCoding.Gsm.{AllBytes}
use a76xx.Transport.Esp.{ModemSerialEsp, modem_serial_esp}
use a76xx.Transport.Esp.Instance.{esp_serial}
use a76xx.Transport.Esp.Scan.{init-IsReady}
use a76xx.Transport.Esp.Dialog.{At}
use a76xx.Transport.Esp.Wire.{wire, wire-IsLawful, wire-IsPrompt}
use a76xx.Clients.{Session}
use a76xx.Clients.Sms.{SmsEncoding}
use a76xx.Clients.Sms.Receive.{SmsMessage, read}
use a76xx.Clients.Sms.Deliver.{Deliver, Decodes, deliver, count_of, fill_of}
use a76xx.Clients.Sms.Received.{module_answer}
use a76xx.Clients.Sms.Received.Message.{announced, read-deliver}

abbrev first_part : Deliver
first_part = record {
  smsc = 0x91 ∷ 0x94 ∷ 0x21 ∷ [];
  international = true;
  digits = codes "49123";
  stamp = replicate 7 0;
  header = some (0x00 ∷ 0x03 ∷ 123 ∷ 2 ∷ 1 ∷ []);
  text = codes "hello";
}

abbrev packed : Text
packed = 0xD0 ∷ 0x65 ∷ 0x36 ∷ 0xFB ∷ 0x0D ∷ []

abbrev old_message : SmsMessage
old_message = record {
  status = pos 0;
  sender = replicate 20 0;
  raw = replicate 160 0;
  raw_len = 0;
  encoding = SmsEncoding.data_8bit;
  decoded = replicate 161 0;
}

-- "sms" stands in place of a name.
abbrev answer : Text
answer =
    module_answer (pos 1) (codes "\"sms\"") (announced first_part packed)
      (deliver first_part packed) (codes "RING")

abbrev session : Session (ModemSerialEsp Text)
session = record { last_error = pos 7; port = modem_serial_esp answer }

packed_lem : pack7_bit (codes "hello") 5 (fill_of first_part.header) ≡ some packed
unfolding pack7_bit pack_loop fill_buffer fill_of
packed_lem = refl

first_part_IsDigits : IsDigits (codes "49123")
first_part_IsDigits i h = ground arith

fits : count_of first_part.header 5 ≤ 160
unfolding count_of
fits = omega arith

deliver-AllBytes : AllBytes (deliver first_part packed)
unfolding deliver count_of store_bcd_digits store_from bcd_byte
deliver-AllBytes = ground arith

deliver-short : length (deliver first_part packed) ≤ 200
unfolding deliver store_bcd_digits store_from
deliver-short = omega arith

session_at : At wire (λ l. l) session.port answer
unfolding modem_serial_esp init get_used
session_at = record { ready = init-IsReady; emptied = refl; line = refl }

read-deliver_example :
    (message' : SmsMessage) × ((s : ModemSerialEsp Text) × (read
          (esp_serial wire (λ l. l) [] [] (λ (t : Text). t) [])
          (replicate 200 0)
          255
          255
          4
          old_message
          session
        ≡ (some (true, message'), record { last_error = pos 7; port = s }))
      × At wire (λ l. l) s (codes "RING"))
    × Decodes first_part (record old_message { status = pos 1 }) message'
read-deliver_example =
    read-deliver wire (λ l. l) [] (λ (t : Text). t) [] first_part packed (codes "\"sms\"")
      (replicate 200 0) (codes "RING") 255 255 4 (pos 1) old_message session wire-IsLawful
      wire-IsPrompt packed_lem first_part_IsDigits (omega arith) refl fits deliver-AllBytes
      deliver-short (record { sender = refl; raw = refl; decoded = refl }) (omega arith)
      (ground arith) session_at
