-- ===== src/Commands/StatusControl.antt =====
-- src/commands/status_control.h: functionality, power, reset, clock and error codes.
use a76xx.Prelude.{
  ℕ, ltb, ◌==◌, if◌then◌else◌, Bool, true, false, Option, none, some, [], ◌∷◌, length, codes,
}
use a76xx.Prelude.Int.{ℤ, pos}
use a76xx.Serial.{
  Text, Response, ModemSerial, Cmd, ◌>>=◌, ◌>>◌, pure, succeeded, timed_out, generic_error, txt,
  num, send_cmd, wait_1, wait_0, clear, process,
}

module _ {S F : Type 0} (serial : ModemSerial S F) where
  unfoldable pub set_phone_functionality : ℕ → Bool → Cmd S ℤ
  set_phone_functionality fun reset = do
    send_cmd serial (txt "AT+CFUN=" ∷ num fun ∷ (if reset then txt ",1" else txt "") ∷ [])
    process serial (wait_0 serial 9000 true true)

  unfoldable pub power_off : Cmd S ℤ
  power_off = do send_cmd serial (txt "AT+CPOF" ∷ []); process serial (wait_0 serial 9000 true true)

  unfoldable pub reset : Cmd S ℤ
  reset = do send_cmd serial (txt "AT+CRESET" ∷ []); process serial (wait_0 serial 9000 true true)

  unfoldable pub date_time_switch : Response → Cmd S (ℤ × Option Text)
  date_time_switch Response.match_1st = do
    (read_len, date_time) ← serial.read_bytes (pos 20)
    clear serial 500
    pure ((if read_len == 20 then succeeded else generic_error), some date_time)
  date_time_switch Response.timeout = pure (timed_out, none)
  date_time_switch _ = pure (generic_error, none)

  -- The argument is the text that the buffer holds at the call.
  unfoldable pub get_date_time : Text → Cmd S (ℤ × Option Text)
  get_date_time date_time = if ltb (length date_time) 20 then pure (generic_error, none) else do
    send_cmd serial (txt "AT+CCLK?" ∷ [])
    rsp ← wait_1 serial (codes "+CCLK: \"") 9000 false true
    date_time_switch rsp

  unfoldable pub set_error_result_codes : ℕ → Cmd S ℤ
  set_error_result_codes n = do
    send_cmd serial (txt "AT+CMEE=" ∷ num n ∷ [])
    process serial (wait_0 serial 9000 true true)
