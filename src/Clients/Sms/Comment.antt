-- ===== src/Clients/Sms/Comment.antt =====
-- sendWithComment of src/clients/sms.cpp: a comment is put in front of a message, and both are sent in
-- one part or in up to three.
use a76xx.Prelude.{
  ℕ, zero, suc, ◌+◌, ◌-◌, ◌*◌, ◌/◌, ◌%◌, ◌^◌, Bool, true, false, ◌&&◌, Option, none, some, [], ◌∷◌,
  ltb, if◌then◌else◌, length, take, drop, copy_at, get_or,
}
use a76xx.Serial.{Text, ModemSerial, Cmd, ◌>>=◌, pure}
use a76xx.SmsCoding.{encode_gsm}
use a76xx.Clients.{Session}
use a76xx.Clients.Sms.{SmsEncoding, SmsUserData, send_single, or_empty}
use a76xx.Clients.Sms.Send.{part_info}

-- What the switch on the coding sets: the length of the comment, in the units of the message, the
-- most that fits in all parts, the most that fits in a part of its own, and in one of several.
pub record Limits : Type 0 where
  pub comment_len : ℕ
  pub most : ℕ
  pub single : ℕ
  pub part : ℕ

unfoldable pub limits : SmsEncoding → ℕ → Option Limits
limits SmsEncoding.gsm_char comment_len =
    some record { comment_len = comment_len; most = 459; single = 160; part = 153 }
limits SmsEncoding.ucs2_char comment_len =
    some record { comment_len = comment_len * 2 % 2 ^ 16; most = 402; single = 140; part = 134 }
limits SmsEncoding.data_8bit comment_len = none

-- Two bytes for each character from index `i` on.
unfoldable pub wide : Text → ℕ → ℕ → Text
wide comment i zero = []
wide comment i (suc n) = 0x00 ∷ get_or comment i 0 ∷ wide comment (suc i) n

-- The comment of a part: the array, and how far it and the comment have got.
unfoldable pub comment_part : Bool → SmsEncoding → Text → ℕ → ℕ → Text → Text × ℕ × ℕ
unfolding or_empty wide
comment_part char_is_signed SmsEncoding.gsm_char comment comment_idx n bytes = (
  or_empty (encode_gsm char_is_signed (drop comment_idx comment) false (some bytes) n).2,
  n,
  comment_idx + n,
)
comment_part char_is_signed SmsEncoding.ucs2_char comment comment_idx n bytes =
    (copy_at bytes 0 (wide comment (comment_idx / 2) (n / 2)), n / 2 * 2, comment_idx + n / 2 * 2)
comment_part char_is_signed SmsEncoding.data_8bit comment comment_idx n bytes =
    (bytes, 0, comment_idx)

unfoldable pub least : ℕ → ℕ → ℕ
least a b = if ltb a b then a else b

module _ {S F : Type 0} (serial : ModemSerial S F) (char_is_signed : Bool)
    (destination comment : Text) (message : SmsUserData) (comment_len max_bytes : ℕ)
    (parts : Option (ℕ × ℕ)) where
  -- One part: the array, how much of it is used, and how far comment and message have got.
  unfoldable pub fill_part : ℕ → ℕ → Text → Text × ℕ × ℕ × ℕ
  unfolding comment_part least
  fill_part comment_idx message_idx bytes =
      let (bytes1, part_idx, comment_idx') =
        if ltb comment_idx comment_len
        then comment_part char_is_signed message.encoding comment comment_idx
            (least (comment_len - comment_idx) max_bytes) bytes
        else (bytes, 0, comment_idx) in
      let n = least (message.len - message_idx) (max_bytes - part_idx) in
      if ltb message_idx message.len && ltb part_idx max_bytes
      then (
        copy_at bytes1 part_idx (take n (drop message_idx message.bytes)),
        part_idx + n,
        comment_idx',
        message_idx + n,
      )
      else (bytes1, part_idx, comment_idx', message_idx)

  unfoldable pub comment_loop : ℕ → ℕ → ℕ → ℕ → Text → Cmd (Session S) Bool
  unfolding fill_part send_single part_info
  comment_loop number comment_idx message_idx zero bytes = pure true
  comment_loop number comment_idx message_idx (suc left) bytes =
      let (bytes', len, comment_idx', message_idx') = fill_part comment_idx message_idx bytes in
      let rest = comment_loop (suc number) comment_idx' message_idx' left bytes' in
      do
        sent ←
            send_single serial destination
              (record { encoding = message.encoding; bytes = bytes'; len = len })
              (part_info parts number)
        if sent then rest else pure false

-- What the lengths make of it; the results are whether all was sent and the message reference.
unfoldable pub with_limits :
    {S F : Type 0}
    → ModemSerial S F
    → Bool
    → Text
    → SmsUserData
    → Text
    → Text
    → ℕ
    → Option Limits
    → Cmd (Session S) (Bool × ℕ)
unfolding comment_loop
with_limits serial char_is_signed destination message comment bytes message_reference none =
    pure (false, message_reference)
with_limits serial char_is_signed destination message comment bytes message_reference (some l) =
    let res_len = (message.len + l.comment_len) % 2 ^ 16 in
    let total_parts = (res_len + l.part - 1) / l.part in
    if ltb l.most res_len
    then pure (false, message_reference)
    else if ltb l.single res_len
    then (do
      sent ←
          comment_loop serial char_is_signed destination comment message l.comment_len l.part
            (some (message_reference, total_parts)) 1 0 0 total_parts bytes
      pure (sent, (message_reference + 1) % 256))
    else (do
      sent ←
          comment_loop serial char_is_signed destination comment message l.comment_len l.single none
            1 0 0 1 bytes
      pure (sent, message_reference))

unfoldable pub send_with_comment :
    {S F : Type 0}
    → ModemSerial S F
    → Bool
    → Text
    → SmsUserData
    → Text
    → Text
    → ℕ
    → Cmd (Session S) (Bool × ℕ)
unfolding with_limits limits
send_with_comment serial char_is_signed destination message comment bytes message_reference =
    with_limits serial char_is_signed destination message comment bytes message_reference
      (limits message.encoding (length comment % 2 ^ 16))
