-- ===== src/Commands/Sms/Send.antt =====
-- The characters that `send` of src/commands/sms.h prints for a message.
use a76xx.Prelude.{[], ◌∷◌, map, ◌≡◌, refl}
use a76xx.Serial.{Text, Item, ModemSerial, print, print_cmd}
use a76xx.Commands.Sms.{print_pairs}
use a76xx.Commands.Sms.Read.{hex_text}

module _ {S F : Type 0} (serial : ModemSerial S F) where
  -- The message is printed as the two digits of each byte, in the order of the bytes: the characters
  -- that `read_pdu_lem` reads back.
  pub print_pairs_lem :
      (bytes : Text) (s : S)
      → print_pairs serial bytes s ≡ print serial (map Item.chr (hex_text bytes)) s
  unfolding print_pairs hex_text print print_cmd
  print_pairs_lem [] s = refl
  print_pairs_lem (b ∷ bytes) s = print_pairs_lem bytes _
