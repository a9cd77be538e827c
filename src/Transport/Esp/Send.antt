-- ===== src/Transport/Esp/Send.antt =====
-- A command that is sent over src/modem_serial_esp.h leaves the text still to come alone.
use a76xx.Prelude.{List, [], ◌∷◌}
use a76xx.Serial.{Text, Item, ModemSerial, print_cmd, send_cmd}
use a76xx.Transport.Uart.{Uart, IsLawful, IsPrompt}
use a76xx.Transport.Esp.{ModemSerialEsp}
use a76xx.Transport.Esp.Instance.{esp_serial}
use a76xx.Transport.Esp.Dialog.{At, print_at}

module _ {U F : Type 0} (driver : Uart U) (incoming : U → Text) (beyond : Text) (strtof : Text → F)
    (zero_f : F) (law : IsLawful driver incoming) (prompt : IsPrompt driver incoming) where
  abbrev serial : ModemSerial (ModemSerialEsp U) F
  serial = esp_serial driver incoming [] beyond strtof zero_f

  abbrev Shows : Text → ModemSerialEsp U → Type 0
  Shows text s = At driver incoming s text

  print_cmd_at :
      (items : List Item) (s : ModemSerialEsp U) (text : Text)
      → Shows text s
      → Shows text (print_cmd serial items s)
  unfolding print_cmd esp_serial
  print_cmd_at [] s text at = at
  print_cmd_at (item ∷ items) s text at =
      print_cmd_at items _ text (print_at driver incoming law prompt beyond item s text at)

  pub send_cmd_at :
      (items : List Item) (s : ModemSerialEsp U) (text : Text)
      → Shows text s
      → Shows text (send_cmd serial items s).1
  unfolding send_cmd esp_serial
  send_cmd_at items s text at =
      print_at driver incoming law prompt beyond _ _ text (print_cmd_at items s text at)
