-- ===== src/Commands/PacketDomain.antt =====
-- src/commands/packet_domain.h: registration and the PDP context.
use a76xx.Prelude.{
  ℕ, ◌+◌, ◌%◌, ◌/◌, ltb, ◌==◌, if◌then◌else◌, Bool, true, false, Option, none, some, [], ◌∷◌, ◌++◌,
  codes,
}
use a76xx.Prelude.Int.{ℤ, pos, int8}
use a76xx.Serial.{
  Text, Response, Item, ModemSerial, Cmd, ◌>>=◌, ◌>>◌, pure, succeeded, timed_out, generic_error,
  txt, num, flag, comma, send_cmd, print, wait_1, wait_0, parse_int_clear, process,
}
use a76xx.Commands.Network.{status_switch}

-- The digits of a number, as `sprintf` prints an `uint8_t` for `%d`.
unfoldable pub digits_of_byte : ℕ → Text
digits_of_byte n =
    if ltb n 10
    then (b'0' + n) ∷ []
    else if ltb n 100
    then (b'0' + n / 10) ∷ (b'0' + n % 10) ∷ []
    else (b'0' + n / 100) ∷ (b'0' + n / 10 % 10) ∷ (b'0' + n % 10) ∷ []

module _ {S F : Type 0} (serial : ModemSerial S F) where
  unfoldable pub get_xxx_network_registration_status : ℕ → Cmd S (ℤ × Option ℤ)
  get_xxx_network_registration_status select = do
    send_cmd serial (txt "AT+C" ∷ Item.chr select ∷ txt "REG?" ∷ [])
    rsp ← wait_1 serial (b'+' ∷ b'C' ∷ select ∷ codes "REG: ") 9000 false true
    status_switch serial rsp

  unfoldable pub get_gprs_network_registration_status : Cmd S (ℤ × Option ℤ)
  get_gprs_network_registration_status = get_xxx_network_registration_status b'G'

  unfoldable pub get_lte_network_registration_status : Cmd S (ℤ × Option ℤ)
  get_lte_network_registration_status = get_xxx_network_registration_status b'E'

  unfoldable pub set_pdp_context_active_status : ℕ → Bool → Cmd S ℤ
  set_pdp_context_active_status cid activate = do
    send_cmd serial (txt "AT+CGACT=" ∷ flag activate ∷ comma ∷ num cid ∷ [])
    process serial (wait_0 serial 9000 true true)

  unfoldable pub active_switch : Response → Cmd S (ℤ × Option ℤ)
  active_switch Response.match_1st = do
    status ← parse_int_clear serial
    pure (succeeded, some (int8 status))
  active_switch Response.ok = pure (succeeded, some (pos 0))
  active_switch Response.timeout = pure (timed_out, none)
  active_switch _ = pure (generic_error, none)

  unfoldable pub get_pdp_context_active_status : ℕ → Cmd S (ℤ × Option ℤ)
  get_pdp_context_active_status cid = do
    send_cmd serial (txt "AT+CGACT?" ∷ [])
    rsp ← wait_1 serial (codes "+CGACT: " ++ digits_of_byte cid ++ codes ",") 9000 true true
    active_switch rsp

  unfoldable pub set_pdp_context_parameters : ℕ → Text → Cmd S ℤ
  set_pdp_context_parameters cid apn = do
    send_cmd serial (txt "AT+CGDCONT=" ∷ num cid ∷ txt ",\"IP\",\"" ∷ Item.str apn ∷ txt "\"" ∷ [])
    process serial (wait_0 serial 9000 true true)

  -- An argument that is printed behind a comma when it is not a null pointer.
  unfoldable pub optional_argument : Option Text → Cmd S Unit
  optional_argument none = pure tt
  optional_argument (some text) = print serial (comma ∷ Item.str text ∷ [])

  unfoldable pub set_pdp_authentication : ℕ → ℕ → Option Text → Option Text → Cmd S ℤ
  set_pdp_authentication cid auth_type password username = do
    print serial (txt "AT+CGAUTH=" ∷ num cid ∷ [])
    if auth_type == 0 then pure tt else print serial (comma ∷ num auth_type ∷ [])
    optional_argument password
    optional_argument username
    print serial (Item.str (13 ∷ 10 ∷ []) ∷ [])
    process serial (wait_0 serial 9000 true true)
