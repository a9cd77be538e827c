-- ===== src/Clients/Sms/Send.antt =====
-- send of src/clients/sms.cpp: a text in one part, or in up to three.
pub mod Chunks
pub mod Parts
use a76xx.Prelude.{
  ℕ, zero, suc, ◌+◌, ◌-◌, ◌/◌, ◌%◌, ◌^◌, Bool, true, false, Option, none, some, ltb, leb,
  if◌then◌else◌, length, drop,
}
use a76xx.Serial.{Text, ModemSerial, Cmd, ◌>>=◌, pure}
use a76xx.SmsCoding.{encode_gsm}
use a76xx.Clients.{Session}
use a76xx.Clients.Sms.{SmsEncoding, SmsMultipart, SmsUserData, send_single, or_empty}

-- encodeGSM of `n` characters from an index on, into the array `data`.
unfoldable pub encoded_part : Bool → Text → ℕ → ℕ → Text → Text
unfolding or_empty
encoded_part char_is_signed text message_idx n bytes =
    or_empty (encode_gsm char_is_signed (drop message_idx text) false (some bytes) n).2

-- The length of the next part.
unfoldable pub send_bytes : ℕ → ℕ → ℕ → ℕ
send_bytes text_len message_idx max_bytes =
    let rest = text_len - message_idx in if ltb rest max_bytes then rest else max_bytes

-- The information of part number `part`, when there is more than one.
unfoldable pub part_info : Option (ℕ × ℕ) → ℕ → Option SmsMultipart
part_info none part = none
part_info (some (reference, total)) part =
    some record { reference = reference; total = total; sequence = part }

unfoldable pub user_data : Bool → Text → ℕ → ℕ → Text → SmsUserData
unfolding encoded_part
user_data char_is_signed text message_idx n bytes = record {
  encoding = SmsEncoding.gsm_char;
  bytes = encoded_part char_is_signed text message_idx n bytes;
  len = n;
}

module _ {S F : Type 0} (serial : ModemSerial S F) (char_is_signed : Bool) (destination text : Text)
    (text_len max_bytes : ℕ) (parts : Option (ℕ × ℕ)) where
  -- The loop from part number `part` on, with `left` rounds to go.
  unfoldable pub send_loop : ℕ → ℕ → ℕ → Text → Cmd (Session S) Bool
  unfolding send_single user_data send_bytes part_info
  send_loop part message_idx zero bytes = pure true
  send_loop part message_idx (suc left) bytes =
      let n = send_bytes text_len message_idx max_bytes in
      let message = user_data char_is_signed text message_idx n bytes in
      let rest = send_loop (suc part) (message_idx + n) left message.bytes in
      if leb text_len message_idx then pure false else do
        sent ← send_single serial destination message (part_info parts part)
        if sent then rest else pure false

-- `bytes` is what the array `partMsg.data` holds at first. The results are what `send` returns and
-- the message reference, an `uint8_t`, which is counted up for a message in parts.
unfoldable pub send :
    {S F : Type 0} → ModemSerial S F → Bool → Text → Text → Text → ℕ → Cmd (Session S) (Bool × ℕ)
unfolding send_loop
send serial char_is_signed destination text bytes message_reference =
    let text_len = length text % 2 ^ 16 in
    let total_parts = (text_len + 152) / 153 in
    if ltb 459 text_len
    then pure (false, message_reference)
    else if ltb 160 text_len
    then (do
      sent ←
          send_loop serial char_is_signed destination text text_len 153
            (some (message_reference, total_parts)) 1 0 total_parts bytes
      pure (sent, (message_reference + 1) % 256))
    else (do
      sent ← send_loop serial char_is_signed destination text text_len 160 none 1 0 1 bytes
      pure (sent, message_reference))
