-- ===== src/Commands/Network/Tests.antt =====
-- A run of the status commands of src/commands/network.h over a line that has received everything.
use a76xx.Prelude.{◌≡◌, refl, [], codes, arith}
use a76xx.Serial.{Text}
use a76xx.Ring.{init, get_used}
use a76xx.Transport.Esp.{ModemSerialEsp, modem_serial_esp}
use a76xx.Transport.Esp.Instance.{esp_serial}
use a76xx.Transport.Esp.Scan.{init-IsReady}
use a76xx.Transport.Esp.Dialog.{At}
use a76xx.Transport.Esp.Wire.{wire, wire-IsLawful, wire-IsPrompt}
use a76xx.Commands.Network.Answer.{
  Query, ModuleAnswer, answer_text, expected, left_over, run, run-answer,
}

-- Registered, roaming, and a call behind it.
abbrev roaming : ModuleAnswer
roaming = ModuleAnswer.reports (codes "0") 5 (codes "RING")

abbrev registered : ModemSerialEsp Text
registered = modem_serial_esp (answer_text Query.registration roaming)

registered_at : At wire (λ l. l) registered (answer_text Query.registration roaming)
unfolding modem_serial_esp init get_used
registered_at = record { ready = init-IsReady; emptied = refl; line = refl }

run-answer_example :
    let (result, s') =
      run (esp_serial wire (λ l. l) [] [] (λ (t : Text). t) []) Query.registration registered in
    (result ≡ expected roaming) × At wire (λ l. l) s' (left_over roaming)
run-answer_example =
    run-answer wire (λ l. l) [] (λ (t : Text). t) [] wire-IsLawful wire-IsPrompt Query.registration
      roaming registered (((omega arith), tt), omega arith) registered_at
