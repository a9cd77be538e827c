-- ===== src/Commands/Sim.antt =====
-- src/commands/sim.h: the PIN.
use a76xx.Prelude.{◌==◌, if◌then◌else◌, Bool, true, false, ◌&&◌, ◌||◌, [], ◌∷◌, ◌++◌, codes}
use a76xx.Prelude.Int.{ℤ, pos}
use a76xx.Serial.{
  Text, Response, Item, ModemSerial, Cmd, ◌>>=◌, ◌>>◌, pure, succeeded, timed_out, generic_error,
  txt, send_cmd, wait_1, wait_ok, clear, process,
}

-- PINStatus_t
pub data PinStatus : Type 0 where
  ready sim_pin sim_puk ph_sim_pin sim_pin2 sim_puk2 ph_net_pin uknown : PinStatus

unfoldable pub starts_with : Text → Text → Bool
starts_with [] text = true
starts_with (p ∷ pattern) [] = false
starts_with (p ∷ pattern) (c ∷ text) = (p == c) && starts_with pattern text

-- `strstr(text, pattern) != NULL`
unfoldable pub contains : Text → Text → Bool
contains [] pattern = starts_with pattern []
contains (c ∷ text) pattern = starts_with pattern (c ∷ text) || contains text pattern

-- One of the assignments to `status`.
unfoldable pub set_if : Text → Text → PinStatus → PinStatus → PinStatus
set_if buff pattern status old = if contains buff pattern then status else old

-- The seven assignments, in their order, from the status `UKNOWN`.
unfoldable pub pin_status : Text → PinStatus
pin_status buff = set_if buff (codes "PH-NET PIN") PinStatus.ph_net_pin (
    set_if buff (codes "SIM PUK2") PinStatus.sim_puk2 (
      set_if buff (codes "SIM PIN2") PinStatus.sim_pin2 (
        set_if buff (codes "PH-SIM PIN") PinStatus.ph_sim_pin (
          set_if buff (codes "SIM PUK") PinStatus.sim_puk (
            set_if buff (codes "SIM PIN") PinStatus.sim_pin
              (set_if buff (codes "READY") PinStatus.ready PinStatus.uknown))))))

module _ {S F : Type 0} (serial : ModemSerial S F) where
  -- `readBytesUntil` stores no null character, so the text that `strstr` reads is what was stored
  -- and then `rest`, what the uninitialised buffer and the memory behind it hold up to a null
  -- character.
  unfoldable pub pin_switch : Text → Response → Cmd S (ℤ × PinStatus)
  pin_switch rest Response.match_1st = do
    (read_len, buff) ← serial.read_bytes_until b'\r' (pos 11)
    clear serial 500
    pure (succeeded, pin_status (buff ++ rest))
  pin_switch rest Response.timeout = pure (timed_out, PinStatus.uknown)
  pin_switch rest _ = pure (generic_error, PinStatus.uknown)

  unfoldable pub get_pin_status : Text → Cmd S (ℤ × PinStatus)
  get_pin_status rest = do
    send_cmd serial (txt "AT+CPIN?" ∷ [])
    rsp ← wait_1 serial (codes "+CPIN: ") 9000 false true
    pin_switch rest rsp

  unfoldable pub enter_pin : Text → Cmd S ℤ
  enter_pin pincode = do
    send_cmd serial (txt "AT+CPIN=" ∷ Item.str pincode ∷ [])
    process serial (wait_ok serial)
