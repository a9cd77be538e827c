-- ===== src/Commands/InternetService.antt =====
-- src/commands/internet_service.h: the NTP server and the time.
use a76xx.Prelude.{ℕ, true, false, [], ◌∷◌, codes}
use a76xx.Prelude.Int.{ℤ}
use a76xx.Serial.{
  Text, Item, ModemSerial, Cmd, ◌>>=◌, ◌>>◌, txt, send_cmd, wait_1, wait_ok, process, on_match,
  return_code,
}

module _ {S F : Type 0} (serial : ModemSerial S F) where
  -- `timezone` is an `int8_t`.
  unfoldable pub set_ntp_params : Text → ℤ → Cmd S ℤ
  set_ntp_params host timezone = do
    send_cmd serial (txt "AT+CNTP=\"" ∷ Item.str host ∷ txt "\"," ∷ Item.int timezone ∷ [])
    process serial (wait_ok serial)

  unfoldable pub update_system_time : ℕ → Cmd S ℤ
  update_system_time millis = do
    send_cmd serial (txt "AT+CNTP" ∷ [])
    rsp ← wait_1 serial (codes "+CNTP: ") millis false true
    on_match serial (return_code serial) rsp
