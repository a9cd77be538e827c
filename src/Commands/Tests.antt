-- ===== src/Commands/Tests.antt =====
-- Runs of the commands and of the clients over a scripted module.
use a76xx.Prelude.{
  ℕ, zero, suc, ◌<◌, ◌≤◌, true, false, none, some, List, [], ◌∷◌, ◌++◌, length, take, codes, ◌≡◌,
  refl, arith,
}
use a76xx.Prelude.Int.{pos}
use a76xx.Serial.{Text, Response, succeeded, wait_0, process, return_code, send_cmd}
use a76xx.Serial.Script.{Script, scripted, start}
use a76xx.Commands.Sms.{SmsPosition, read, list, read_pdu}
use a76xx.Commands.Sms.Read.{hex_text, read_pdu_lem, read_bound, list_bound, stored_by}
use a76xx.Commands.Http.{read_header, header_switch, header_fits, header_text}
use a76xx.Commands.Http.Bounds.{read_header_bound}
use a76xx.Commands.Mqtt.{service_switch}
use a76xx.Commands.Mqtt.{start as mqtt_start}

-- A message of three bytes: an SMSC of no length, and two more.
abbrev digits : Text → Script
digits line = start (Response.ok ∷ []) [] line

abbrev message : Text
message = 0 ∷ 17 ∷ 171 ∷ []

read_pdu_example :
    let (retcode, s) = process scripted (wait_0 scripted 9000 true true) (digits []) in
    read_pdu scripted 160 0 0 2 none (digits (hex_text message ++ []))
    ≡ ((retcode, record { stored = message; msg_len = some (length message); status = none }), s)
read_pdu_example =
    read_pdu_lem scripted digits (λ c cs. refl) 160 0 0 2 none 0 (17 ∷ 171 ∷ []) []
      (omega arith, (omega arith, (omega arith, tt))) refl (omega arith) (omega arith)

-- A module that announces three bytes and sends the digits of five.
abbrev long_line : Script
long_line =
    start (Response.ok ∷ Response.match_1st ∷ []) (pos 2 ∷ [])
      (hex_text (0 ∷ 17 ∷ 171 ∷ 5 ∷ 6 ∷ []))

read_bound_example : length (stored_by scripted (read scripted true 2 0 0 false 1 long_line)) ≤ 2
read_bound_example = read_bound scripted true 2 0 0 false 1 long_line

-- Three messages for an array of two.
abbrev three : Script
three =
    start (Response.ok ∷ Response.match_1st ∷ Response.match_1st ∷ Response.match_1st ∷ [])
      (pos 1 ∷ pos 0 ∷ pos 20 ∷ pos 2 ∷ pos 1 ∷ pos 30 ∷ []) []

list_bound_example :
    (l : List SmsPosition) × ((list scripted true 2 4 three).0 ≡ some l) × (length l ≤ 2)
list_bound_example = list_bound scripted true 2 4 three (omega arith)

abbrev silent : Script
silent = start [] [] []

-- A header of four bytes for a buffer of eight.
abbrev header_line : Script
header_line = start (Response.match_1st ∷ Response.ok ∷ []) (pos 4 ∷ []) (codes "HTTP")

take_bound : (n : ℕ) (line : Text) → length (take n line) ≤ n
take_bound zero line = omega arith
take_bound (suc n) [] = omega arith
take_bound (suc n) (c ∷ line) = omega (arith, take_bound n line)

read_header_example : length (codes "HTTP") < 8
unfolding read_header header_switch header_fits header_text send_cmd
read_header_example =
    read_header_bound scripted (λ n s. take_bound n s.line) 8 header_line (codes "HTTP")
      (omega arith) (omega arith) refl

-- A module that does not answer: start returns 0.
start_silent : (mqtt_start scripted silent).0 ≡ succeeded
unfolding mqtt_start service_switch send_cmd return_code
start_silent = refl
