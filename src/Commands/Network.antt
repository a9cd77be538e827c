-- ===== src/Commands/Network.antt =====
-- src/commands/network.h: registration, system mode and time zones.
pub mod Answer
pub mod Status
mod Tests
use a76xx.Prelude.{Bool, true, false, Option, none, some, [], ◌∷◌, codes}
use a76xx.Prelude.Int.{ℤ, int8}
use a76xx.Serial.{
  Response, ModemSerial, Cmd, ◌>>=◌, ◌>>◌, pure, succeeded, timed_out, generic_error, txt, flag,
  send_cmd, wait_1, wait_ok, parse_int_clear, process,
}

module _ {S F : Type 0} (serial : ModemSerial S F) where
  -- The switch of the registration commands: the second number of the answer, as an `int8_t`.
  unfoldable pub status_switch : Response → Cmd S (ℤ × Option ℤ)
  status_switch Response.match_1st = do
    serial.find b','
    status ← parse_int_clear serial
    pure (succeeded, some (int8 status))
  status_switch Response.timeout = pure (timed_out, none)
  status_switch _ = pure (generic_error, none)

  unfoldable pub get_network_registration_status : Cmd S (ℤ × Option ℤ)
  get_network_registration_status = do
    send_cmd serial (txt "AT+CREG?" ∷ [])
    rsp ← wait_1 serial (codes "+CREG: ") 9000 false true
    status_switch rsp

  unfoldable pub get_network_system_mode : Cmd S (ℤ × Option ℤ)
  get_network_system_mode = do
    send_cmd serial (txt "AT+CNSMOD?" ∷ [])
    rsp ← wait_1 serial (codes "+CNSMOD: ") 1000 true true
    status_switch rsp

  unfoldable pub set_time_zone_auto_update : Bool → Cmd S ℤ
  set_time_zone_auto_update enable = do
    send_cmd serial (txt "AT+CTZU=" ∷ flag enable ∷ [])
    process serial (wait_ok serial)

  unfoldable pub set_time_zone_urc : Bool → Cmd S ℤ
  set_time_zone_urc enable = do
    send_cmd serial (txt "AT+CTZR=" ∷ flag enable ∷ [])
    process serial (wait_ok serial)
