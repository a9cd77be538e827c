-- ===== src/Commands/V25ter.antt =====
-- src/commands/v25ter.h: echo, identification and character set.
use a76xx.Prelude.{
  ℕ, ltb, ◌==◌, if◌then◌else◌, Bool, true, false, Option, none, some, [], ◌∷◌, codes,
}
use a76xx.Prelude.Int.{ℤ, pos, int32}
use a76xx.Serial.{
  Text, Response, Item, ModemSerial, Cmd, ◌>>=◌, ◌>>◌, pure, succeeded, timed_out, generic_error,
  out_of_memory, txt, flag, send_cmd, wait_1, wait_0, wait_ok, clear, process,
}

-- characterSet_t
pub data CharacterSet : Type 0 where
  ira ucs2 hex gsm : CharacterSet

unfoldable pub char_set_str : CharacterSet → Text
char_set_str CharacterSet.ira = codes "IRA"
char_set_str CharacterSet.ucs2 = codes "UCS2"
char_set_str CharacterSet.hex = codes "HEX"
char_set_str CharacterSet.gsm = codes "GSM"

module _ {S F : Type 0} (serial : ModemSerial S F) where
  unfoldable pub command_echo : Bool → Cmd S ℤ
  command_echo enable = do
    send_cmd serial (txt "ATE" ∷ flag enable ∷ [])
    process serial (wait_0 serial 120000 true true)

  -- What is done with the count that readBytesUntil returned and with the buffer.
  unfoldable pub identification_read : ℕ → ℕ × Text → Cmd S (ℤ × Option Text)
  identification_read len (read_len, buf) =
      if ltb 0 read_len
      then if read_len == len then pure (out_of_memory, none) else pure (succeeded, some buf)
      else pure (timed_out, none)

  -- The method takes a buffer of `len` bytes; on success it holds the text and a null character.
  unfoldable pub model_identification : ℕ → Cmd S (ℤ × Option Text)
  model_identification len = do
    clear serial 500
    send_cmd serial (txt "AT+CGMM" ∷ [])
    serial.find b'\n'
    read ← serial.read_bytes_until b'\r' (int32 (pos len))
    clear serial 500
    identification_read len read

  unfoldable pub revision_switch : ℕ → Response → Cmd S (ℤ × Option Text)
  revision_switch len Response.match_1st = do
    read ← serial.read_bytes_until b'\r' (int32 (pos len))
    clear serial 500
    identification_read len read
  revision_switch len Response.timeout = pure (timed_out, none)
  revision_switch len _ = pure (generic_error, none)

  unfoldable pub revision_identification : ℕ → Cmd S (ℤ × Option Text)
  revision_identification len = do
    send_cmd serial (txt "AT+CGMR" ∷ [])
    rsp ← wait_1 serial (codes "+CGMR: ") 9000 false false
    revision_switch len rsp

  unfoldable pub character_set : CharacterSet → Cmd S ℤ
  character_set charset = do
    send_cmd serial (txt "AT+CSCS=\"" ∷ Item.str (char_set_str charset) ∷ Item.chr b'"' ∷ [])
    process serial (wait_ok serial)
