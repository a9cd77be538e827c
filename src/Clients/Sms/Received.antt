-- ===== src/Clients/Sms/Received.antt =====
-- `read` of src/clients/sms.cpp on top of SMSCommands::read of src/commands/sms.h and of the transport
-- of src/modem_serial_esp.h: from the text that the module sends to the message.
pub mod Message
pub mod Tests
use a76xx.Prelude.{
  ℕ, zero, suc, ◌+◌, ◌-◌, ◌^◌, ◌≤◌, ◌<◌, ◌≡◌, ◌≢◌, refl, sym, ap, ◌∙◌, Bool, true, false, Option,
  none, some, List, [], ◌∷◌, ◌++◌, length, length-append, drop, codes, arith,
}
use a76xx.Prelude.Int.{ℤ, pos, uint16}
use a76xx.Serial.{
  Text, Response, Item, txt, num, ModemSerial, succeeded, print_cmd, send_cmd, process, wait_0,
  response_process,
}
use a76xx.SmsCoding.Gsm.{AllBytes}
use a76xx.Commands.Sms.{SmsRead, set_message_format, read_switch, read_status, read as read_cmd}
use a76xx.Commands.Sms.Read.{hex_text, read_pdu-Line}
use a76xx.Transport.Uart.{Uart, IsLawful, IsPrompt}
use a76xx.Transport.Esp.{ModemSerialEsp, candidates, wait_response}
use a76xx.Transport.Esp.Instance.{esp_serial}
use a76xx.Transport.Esp.Print.{show_int}
use a76xx.Transport.Esp.Send.{send_cmd_at}
use a76xx.Transport.Esp.Number.{strchr, parse_int}
use a76xx.Transport.Esp.Bytes.{find}
use a76xx.Transport.Esp.Number.Decimal.{IsInt32}
use a76xx.Transport.Esp.Bytes.Reads.{Absent}
use a76xx.Transport.Esp.Dialog.{
  At, Holding, wait_at, print_at, find_next, find_held, parse_at, read_at,
}

-- "\r\nOK\r\n"
abbrev pub ok_line : Text
ok_line = 13 ∷ 10 ∷ 79 ∷ 75 ∷ 13 ∷ 10 ∷ []

-- What follows "+CMGR: ": the status, the name of the sender, the length of the message without the
-- part of the service centre, and the digits of the bytes.
unfoldable pub message_text : ℤ → Text → ℕ → Text → Text → Text
message_text status alpha len pdu rest =
    show_int status
    ++ b','
      ∷ (alpha
          ++ b',' ∷ (show_int (pos len) ++ 13 ∷ 10 ∷ (hex_text pdu ++ (13 ∷ 10 ∷ ok_line ++ rest))))

-- What the module answers to AT+CMGF and to AT+CMGR.
unfoldable pub module_answer : ℤ → Text → ℕ → Text → Text → Text
unfolding message_text
module_answer status alpha len pdu rest =
    ok_line ++ (13 ∷ 10 ∷ codes "+CMGR: " ++ message_text status alpha len pdu rest)

ends_number : (strchr (codes "0123456789") b',' ≡ false) × (strchr (codes "0123456789") 13 ≡ false)
unfolding strchr
ends_number = (refl, refl)

buffer_small : 200 < 2 ^ 16
buffer_small = omega arith

no_return : ◌≢◌ {A = ℕ} 13 10
no_return = omega arith

module _ {U F : Type 0} (driver : Uart U) (incoming : U → Text) (beyond : Text) (strtof : Text → F)
    (zero_f : F) (law : IsLawful driver incoming) (prompt : IsPrompt driver incoming) where
  abbrev serial : ModemSerial (ModemSerialEsp U) F
  serial = esp_serial driver incoming [] beyond strtof zero_f

  abbrev Shows : Text → ModemSerialEsp U → Type 0
  Shows text s = At driver incoming s text

  -- AT+CMGF is answered by OK.
  format_at :
      (s : ModemSerialEsp U) (rest : Text)
      → Shows (ok_line ++ rest) s
      → ((set_message_format serial 0 s).0 ≡ succeeded)
        × Shows rest (set_message_format serial 0 s).1
  unfolding set_message_format process response_process esp_serial candidates
  format_at s rest at =
      let sent =
        send_cmd_at driver incoming beyond strtof zero_f law prompt _ s (ok_line ++ rest) at in
      let (rsp, behind) =
        wait_at driver incoming law prompt none none none 9000 true true _ (ok_line ++ rest)
          Response.ok rest sent refl in
      (rw rsp refl, behind)

  -- What is read behind "+CMGR: ".
  switch_at :
      (high low len : ℕ) (status : ℤ) (alpha : Text) (smsc : ℕ) (bytes rest : Text)
      (s : ModemSerialEsp U)
      → IsInt32 status
      → Absent b',' alpha
      → AllBytes (smsc ∷ bytes)
      → length bytes ≡ smsc + len
      → length bytes < 200
      → Shows (message_text status alpha len (smsc ∷ bytes) rest) s
      → (s' : ModemSerialEsp U) × (read_switch serial 200 high low true Response.match_1st s ≡ (
        (
          succeeded,
          record {
            stored = smsc ∷ bytes;
            msg_len = some (length (smsc ∷ bytes));
            status = some status;
          },
        ),
        s',
      ))
        × Shows rest s'
  unfolding read_switch read_status esp_serial message_text process response_process candidates
  switch_at high low len status alpha smsc bytes rest s int absent all total fits at =
      let short : IsInt32 (pos len) = omega arith in
      let digits = hex_text (smsc ∷ bytes) ++ (13 ∷ 10 ∷ ok_line ++ rest) in
      let numbered = show_int (pos len) ++ 13 ∷ 10 ∷ digits in
      let s1 = (parse_int driver incoming s).1 in
      let s2 = (find driver incoming b',' s1).1 in
      let s3 = (find driver incoming b',' s2).1 in
      let s4 = (parse_int driver incoming s3).1 in
      let s5 = (find driver incoming 10 s4).1 in
      let (got1, at1) =
        parse_at driver incoming law prompt status b',' (alpha ++ b',' ∷ numbered) s int
          ends_number.0 at in
      let (got2, at2) =
        find_held driver incoming law prompt b',' b',' [] (alpha ++ b',' ∷ numbered) _ s1 at1 refl
          tt in
      let (got3, at3) = find_next driver incoming law prompt b',' alpha numbered s2 at2 absent in
      let (got4, at4) =
        parse_at driver incoming law prompt (pos len) 13 (10 ∷ digits) s3 short ends_number.1 at3 in
      let (got5, at5) =
        find_held driver incoming law prompt 10 13 (13 ∷ []) (10 ∷ digits) digits s4 at4 refl
          (no_return, tt) in
      let (s6, at6, e) =
        read_pdu-Line serial Shows (λ c cs t on. read_at driver incoming law prompt c cs t on) 200
          high low len (some status) smsc bytes (13 ∷ 10 ∷ ok_line ++ rest) s5 all total fits
          buffer_small at5 in
      let (rsp, behind) =
        wait_at driver incoming law prompt none none none 9000 true true s6
          (13 ∷ 10 ∷ ok_line ++ rest) Response.ok rest at6 refl in
      let s7 = (wait_response driver incoming [] none none none 9000 true true s6).1 in
      let same : uint16 (pos len) ≡ len = omega arith in
      (s7, rw (got1, got4, same) (rw rsp at e), behind)

  -- The command stores the bytes of the message.
  pub command_at :
      (high low index len : ℕ) (status : ℤ) (alpha : Text) (smsc : ℕ) (bytes rest : Text)
      (s : ModemSerialEsp U)
      → IsInt32 status
      → Absent b',' alpha
      → AllBytes (smsc ∷ bytes)
      → length bytes ≡ smsc + len
      → length bytes < 200
      → Shows (module_answer status alpha len (smsc ∷ bytes) rest) s
      → (s' : ModemSerialEsp U) × (read_cmd serial true 200 high low true index s ≡ (
        (
          succeeded,
          record {
            stored = smsc ∷ bytes;
            msg_len = some (length (smsc ∷ bytes));
            status = some status;
          },
        ),
        s',
      ))
        × Shows rest s'
  unfolding read_cmd esp_serial module_answer candidates
  command_at high low index len status alpha smsc bytes rest s int absent all total fits at =
      let text = message_text status alpha len (smsc ∷ bytes) rest in
      let s1 = (set_message_format serial 0 s).1 in
      let items = txt "AT+CMGR=" ∷ num index ∷ [] in
      let s2 = (send_cmd serial items s1).1 in
      let (ok, at1) = format_at s (13 ∷ 10 ∷ codes "+CMGR: " ++ text) at in
      let at2 =
        send_cmd_at driver incoming beyond strtof zero_f law prompt items s1
          (13 ∷ 10 ∷ codes "+CMGR: " ++ text) at1 in
      let (rsp, at3) =
        wait_at driver incoming law prompt (some (codes "+CMGR: ")) (some (codes "+CMS ERROR: "))
          none 9000 true true s2 (13 ∷ 10 ∷ codes "+CMGR: " ++ text) Response.match_1st text at2
          refl in
      let s3 =
        (wait_response driver incoming [] (some (codes "+CMGR: ")) (some (codes "+CMS ERROR: "))
          none 9000 true true s2).1 in
      let (s', e, at4) =
        switch_at high low len status alpha smsc bytes rest s3 int absent all total fits at3 in
      (s', rw (ok, rsp) e, at4)
