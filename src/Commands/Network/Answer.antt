-- ===== src/Commands/Network/Answer.antt =====
-- The commands of src/commands/network.h and packet_domain.h that ask for a status of the network, over
-- the transport of src/modem_serial_esp.h: from the text that the module sends to the result.
use a76xx.Prelude.{
  ℕ, ◌<◌, ◌%◌, ◌≡◌, refl, Bool, true, false, Option, none, some, List, [], ◌∷◌, ◌++◌, codes, ltb,
  arith,
}
use a76xx.Prelude.Int.{ℤ, pos, int8}
use a76xx.Serial.{
  txt, send_cmd, Item, Text, Cmd, Response, ModemSerial, succeeded, timed_out, generic_error,
  parse_int_clear, clear,
}
use a76xx.Transport.Uart.{Uart, IsLawful, IsPrompt}
use a76xx.Transport.Esp.{ModemSerialEsp, candidates, wait_response}
use a76xx.Transport.Esp.Instance.{esp_serial}
use a76xx.Transport.Esp.Print.{show_int}
use a76xx.Transport.Esp.Send.{send_cmd_at}
use a76xx.Transport.Esp.Number.{strchr, parse_int}
use a76xx.Transport.Esp.Bytes.{find}
use a76xx.Transport.Esp.Bytes.Reads.{Absent}
use a76xx.Transport.Esp.Dialog.{At, wait_at, wait_held, wait_silent, find_next, parse_at}
use a76xx.Commands.Network.{status_switch, get_network_registration_status, get_network_system_mode}
use a76xx.Commands.PacketDomain.{
  get_xxx_network_registration_status, get_gprs_network_registration_status,
  get_lte_network_registration_status,
}

-- The four commands, and the answer's name.
pub data Query : Type 0 where
  registration : Query
  gprs : Query
  lte : Query
  system_mode : Query

abbrev pub answer_name : Query → Text
answer_name Query.registration = codes "+CREG: "
answer_name Query.gprs = codes "+CGREG: "
answer_name Query.lte = codes "+CEREG: "
answer_name Query.system_mode = codes "+CNSMOD: "

abbrev pub run : {S F : Type 0} → ModemSerial S F → Query → Cmd S (ℤ × Option ℤ)
run serial Query.registration = get_network_registration_status serial
run serial Query.gprs = get_gprs_network_registration_status serial
run serial Query.lte = get_lte_network_registration_status serial
run serial Query.system_mode = get_network_system_mode serial

-- What the module does: it reports a first value and the status, and OK, or it refuses with ERROR, each
-- as a line with an empty one in front, and goes on with some text; or it stays silent.
pub data ModuleAnswer : Type 0 where
  reports : Text → ℕ → Text → ModuleAnswer
  refuses : Text → ModuleAnswer
  silent : ModuleAnswer

abbrev pub answer_text : Query → ModuleAnswer → Text
answer_text q (ModuleAnswer.reports first status rest) =
    13
    ∷ 10
    ∷ (answer_name q
        ++ (first
            ++ b',' ∷ (show_int (pos status) ++ 13 ∷ 10 ∷ 13 ∷ 10 ∷ 79 ∷ 75 ∷ 13 ∷ 10 ∷ rest)))
answer_text q (ModuleAnswer.refuses rest) = 13 ∷ 10 ∷ (codes "ERROR" ++ 13 ∷ 10 ∷ rest)
answer_text q ModuleAnswer.silent = []

-- An answer as it may come: a first value without a comma, and a status that an `int8_t` holds.
abbrev pub Fits : ModuleAnswer → Type 0
Fits (ModuleAnswer.reports first status rest) = Absent b',' first × (status < 128)
Fits (ModuleAnswer.refuses rest) = Unit
Fits ModuleAnswer.silent = Unit

-- What a caller is to get, and what is left of the text.
abbrev pub expected : ModuleAnswer → ℤ × Option ℤ
expected (ModuleAnswer.reports first status rest) = (succeeded, some (pos status))
expected (ModuleAnswer.refuses rest) = (generic_error, none)
expected ModuleAnswer.silent = (timed_out, none)

abbrev pub left_over : ModuleAnswer → Text
left_over (ModuleAnswer.reports first status rest) = rest
left_over (ModuleAnswer.refuses rest) = rest
left_over ModuleAnswer.silent = []

-- The response that waitResponse is to find, and what is behind it.
abbrev response_of : ModuleAnswer → Response
response_of (ModuleAnswer.reports first status rest) = Response.match_1st
response_of (ModuleAnswer.refuses rest) = Response.error
response_of ModuleAnswer.silent = Response.timeout

abbrev behind : ModuleAnswer → Text
behind (ModuleAnswer.reports first status rest) =
    first ++ b',' ∷ (show_int (pos status) ++ 13 ∷ 10 ∷ 13 ∷ 10 ∷ 79 ∷ 75 ∷ 13 ∷ 10 ∷ rest)
behind (ModuleAnswer.refuses rest) = rest
behind ModuleAnswer.silent = []

-- Whether the command waits for OK, too.
abbrev match_ok : Query → Bool
match_ok Query.system_mode = true
match_ok _ = false

number_ends : strchr (codes "0123456789") 13 ≡ false
unfolding strchr
number_ends = refl

int8_small : (status : ℕ) → status < 128 → int8 (pos status) ≡ pos status
int8_small status h =
    let e : status % 256 ≡ status = omega arith in
    let f : ltb status 128 ≡ true = ground arith in rw (e, f) refl

module _ {U F : Type 0} (driver : Uart U) (incoming : U → Text) (beyond : Text) (strtof : Text → F)
    (zero_f : F) (law : IsLawful driver incoming) (prompt : IsPrompt driver incoming) where
  abbrev serial : ModemSerial (ModemSerialEsp U) F
  serial = esp_serial driver incoming [] beyond strtof zero_f

  -- The switch of the commands, on what is behind the response.
  switch_at :
      (answer : ModuleAnswer) (s : ModemSerialEsp U)
      → Fits answer
      → At driver incoming s (behind answer)
      → let (result, s') = status_switch serial (response_of answer) s in
        (result ≡ expected answer) × At driver incoming s' (left_over answer)
  unfolding status_switch parse_int_clear clear esp_serial candidates
  switch_at (ModuleAnswer.reports first status rest) s (no_comma, small) at =
      let tail = 10 ∷ 13 ∷ 10 ∷ 79 ∷ 75 ∷ 13 ∷ 10 ∷ rest in
      let number = show_int (pos status) ++ 13 ∷ tail in
      let s1 = (find driver incoming b',' s).1 in
      let s2 = (parse_int driver incoming s1).1 in
      let (found, at1) = find_next driver incoming law prompt b',' first number s at no_comma in
      let (value, at2) =
        parse_at driver incoming law prompt (pos status) 13 tail s1 (omega arith) number_ends at1 in
      let (rsp, at3) =
        wait_held driver incoming law prompt none none none 500 true true s2 13 tail Response.ok
          rest at2 refl in
      (rw (value, int8_small status small) refl, at3)
  switch_at (ModuleAnswer.refuses rest) s fits at = (refl, at)
  switch_at ModuleAnswer.silent s fits at = (refl, at)

  -- The wait of the commands.
  answer_at :
      (q : Query) (answer : ModuleAnswer) (millis : ℕ) (s : ModemSerialEsp U)
      → At driver incoming s (answer_text q answer)
      → let r =
          wait_response driver incoming []
            (some (answer_name q))
            none
            none
            millis
            (match_ok q)
            true
            s in
        (r.0 ≡ response_of answer) × At driver incoming r.1 (behind answer)
  unfolding candidates
  answer_at q ModuleAnswer.silent millis s at =
      wait_silent driver incoming law prompt _ _ _ _ _ _ s at
  answer_at Query.registration (ModuleAnswer.reports first status rest) millis s at =
      wait_at driver incoming law prompt _ _ _ _ _ _ s _ _
        (behind (ModuleAnswer.reports first status rest)) at refl
  answer_at Query.registration (ModuleAnswer.refuses rest) millis s at =
      wait_at driver incoming law prompt _ _ _ _ _ _ s _ _ (behind (ModuleAnswer.refuses rest)) at
        refl
  answer_at Query.gprs (ModuleAnswer.reports first status rest) millis s at =
      wait_at driver incoming law prompt _ _ _ _ _ _ s _ _
        (behind (ModuleAnswer.reports first status rest)) at refl
  answer_at Query.gprs (ModuleAnswer.refuses rest) millis s at =
      wait_at driver incoming law prompt _ _ _ _ _ _ s _ _ (behind (ModuleAnswer.refuses rest)) at
        refl
  answer_at Query.lte (ModuleAnswer.reports first status rest) millis s at =
      wait_at driver incoming law prompt _ _ _ _ _ _ s _ _
        (behind (ModuleAnswer.reports first status rest)) at refl
  answer_at Query.lte (ModuleAnswer.refuses rest) millis s at =
      wait_at driver incoming law prompt _ _ _ _ _ _ s _ _ (behind (ModuleAnswer.refuses rest)) at
        refl
  answer_at Query.system_mode (ModuleAnswer.reports first status rest) millis s at =
      wait_at driver incoming law prompt _ _ _ _ _ _ s _ _
        (behind (ModuleAnswer.reports first status rest)) at refl
  answer_at Query.system_mode (ModuleAnswer.refuses rest) millis s at =
      wait_at driver incoming law prompt _ _ _ _ _ _ s _ _ (behind (ModuleAnswer.refuses rest)) at
        refl

  -- The commands that ask for the registration, in the network, for packets or in LTE, and for the
  -- system mode, on a line that brings at once what the module answers, over the transport of the
  -- ESP-IDF with no URCs to handle: with a report, of any first value without a comma and of a status
  -- below 128, the code is 0 and the status the one reported; with ERROR, or when the line brings
  -- nothing, the code is that of an error or of a timeout, and there is no status. Exactly the answer
  -- is taken from the line.
  pub run-answer :
      (q : Query) (answer : ModuleAnswer) (s : ModemSerialEsp U)
      → Fits answer
      → At driver incoming s (answer_text q answer)
      → let (result, s') = run serial q s in
        (result ≡ expected answer) × At driver incoming s' (left_over answer)
  unfolding get_network_registration_status get_network_system_mode
      get_gprs_network_registration_status get_lte_network_registration_status
      get_xxx_network_registration_status esp_serial
  run-answer Query.registration answer s fits at =
      let command : List Item = txt "AT+CREG?" ∷ [] in
      let sent = send_cmd_at driver incoming beyond strtof zero_f law prompt command s _ at in
      let (rsp, at1) =
        answer_at Query.registration answer 9000 (send_cmd serial command s).1 sent in
      rw rsp (switch_at answer _ fits at1)
  run-answer Query.gprs answer s fits at =
      let command : List Item = txt "AT+C" ∷ Item.chr b'G' ∷ txt "REG?" ∷ [] in
      let sent = send_cmd_at driver incoming beyond strtof zero_f law prompt command s _ at in
      let (rsp, at1) = answer_at Query.gprs answer 9000 (send_cmd serial command s).1 sent in
      rw rsp (switch_at answer _ fits at1)
  run-answer Query.lte answer s fits at =
      let command : List Item = txt "AT+C" ∷ Item.chr b'E' ∷ txt "REG?" ∷ [] in
      let sent = send_cmd_at driver incoming beyond strtof zero_f law prompt command s _ at in
      let (rsp, at1) = answer_at Query.lte answer 9000 (send_cmd serial command s).1 sent in
      rw rsp (switch_at answer _ fits at1)
  run-answer Query.system_mode answer s fits at =
      let command : List Item = txt "AT+CNSMOD?" ∷ [] in
      let sent = send_cmd_at driver incoming beyond strtof zero_f law prompt command s _ at in
      let (rsp, at1) = answer_at Query.system_mode answer 1000 (send_cmd serial command s).1 sent in
      rw rsp (switch_at answer _ fits at1)
