-- ===== src/Commands/SerialInterface.antt =====
-- src/commands/serial_interface.h: sleep, multiplexer and URC interface.
use a76xx.Prelude.{ℕ, [], ◌∷◌}
use a76xx.Prelude.Int.{ℤ}
use a76xx.Serial.{ModemSerial, Cmd, ◌>>◌, txt, num, send_cmd, wait_ok, process}

module _ {S F : Type 0} (serial : ModemSerial S F) where
  unfoldable pub uart_sleep : ℕ → Cmd S ℤ
  uart_sleep status = do
    send_cmd serial (txt "AT+CSCLK=" ∷ num status ∷ [])
    process serial (wait_ok serial)

  unfoldable pub enable_mux : Cmd S ℤ
  enable_mux = do send_cmd serial (txt "AT+CMUX=0" ∷ []); process serial (wait_ok serial)

  unfoldable pub set_urc_interface : ℕ → Cmd S ℤ
  set_urc_interface port = do
    send_cmd serial (txt "AT+CATR=" ∷ num port ∷ [])
    process serial (wait_ok serial)
