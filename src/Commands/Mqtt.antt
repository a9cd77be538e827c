-- ===== src/Commands/Mqtt.antt =====
-- src/commands/mqtt.h: the service, the client, the last will, topics and messages.
pub mod Codes
use a76xx.Prelude.{
  ℕ, ◌*◌, ◌==◌, if◌then◌else◌, Bool, true, false, Option, some, List, [], ◌∷◌, ◌++◌, length, codes,
}
use a76xx.Prelude.Int.{ℤ, is_zero}
use a76xx.Serial.{
  Text, Response, Item, ModemSerial, Cmd, ◌>>=◌, ◌>>◌, pure, succeeded, timed_out, generic_error,
  mqtt_already_stopped, mqtt_already_started, response_number, txt, num, comma, send_cmd, wait_2,
  wait_1, wait_ok, flushed, parse_int_clear, on_match, return_code, second_code, write_text,
}

-- A `bool` argument of the commands, which prints as an `int`.
abbrev pub bit : Bool → Item
bit b = num (if b then 1 else 0)

module _ {S F : Type 0} (serial : ModemSerial S F) where
  -- The end of start and stop: ERROR is the answer of a service that is in the state already.
  unfoldable pub service_switch : ℤ → Response → Cmd S ℤ
  service_switch already Response.error = pure already
  service_switch already _ = return_code serial

  unfoldable pub start : Cmd S ℤ
  start = do
    send_cmd serial (txt "AT+CMQTTSTART" ∷ [])
    rsp ← wait_1 serial (codes "+CMQTTSTART: ") 12000 false true
    service_switch mqtt_already_started rsp

  unfoldable pub stop : Cmd S ℤ
  stop = do
    send_cmd serial (txt "AT+CMQTTSTOP" ∷ [])
    rsp ← wait_1 serial (codes "+CMQTTSTOP: ") 12000 false true
    service_switch mqtt_already_stopped rsp

  unfoldable pub acquire_switch : Response → Cmd S ℤ
  acquire_switch Response.match_1st = second_code serial
  acquire_switch Response.ok = pure succeeded
  acquire_switch Response.timeout = pure timed_out
  acquire_switch _ = pure generic_error

  unfoldable pub acquire_client : ℕ → Text → ℕ → Cmd S ℤ
  acquire_client client_index client_id server_type = do
    send_cmd serial (
        txt "AT+CMQTTACCQ="
        ∷ num client_index
        ∷ txt ",\""
        ∷ Item.str client_id
        ∷ txt "\","
        ∷ num server_type
        ∷ [])
    rsp ← wait_1 serial (codes "+CMQTTACCQ: ") 9000 true true
    acquire_switch rsp

  unfoldable pub release_switch : Response → Cmd S ℤ
  release_switch Response.ok = pure succeeded
  release_switch Response.error = pure generic_error
  release_switch Response.match_1st = second_code serial
  release_switch _ = pure generic_error

  unfoldable pub release_client : ℕ → Cmd S ℤ
  release_client client_index = do
    send_cmd serial (txt "AT+CMQTTREL=" ∷ num client_index ∷ [])
    rsp ← wait_1 serial (codes "+CMQTTREL: ") 9000 true true
    release_switch rsp

  unfoldable pub set_ssl_context : ℕ → ℕ → Cmd S ℤ
  set_ssl_context session_id ssl_ctx_index = do
    send_cmd serial (txt "AT+CMQTTSSLCFG=" ∷ num session_id ∷ comma ∷ num ssl_ctx_index ∷ [])
    rsp ← wait_ok serial
    pure (response_number rsp)

  -- The switch of the commands that are prompted for a text, or answered by an error code.
  unfoldable pub prompt_switch : Text → Response → Cmd S ℤ
  prompt_switch text Response.match_1st = write_text serial text
  prompt_switch text Response.match_2nd = second_code serial
  prompt_switch text Response.timeout = pure timed_out
  prompt_switch text _ = pure generic_error

  unfoldable pub set_will_topic : ℕ → Text → Cmd S ℤ
  set_will_topic client_index will_topic = do
    send_cmd serial (
        txt "AT+CMQTTWILLTOPIC="
        ∷ num client_index
        ∷ comma
        ∷ Item.unsigned_int (length will_topic)
        ∷ [])
    rsp ← wait_2 serial (codes ">") (codes "+CMQTTWILLTOPIC: ") 9000 true true
    prompt_switch will_topic rsp

  unfoldable pub set_will_message : ℕ → Text → ℕ → Cmd S ℤ
  set_will_message client_index will_message will_qos = do
    send_cmd serial (
        txt "AT+CMQTTWILLMSG="
        ∷ num client_index
        ∷ comma
        ∷ Item.unsigned_int (length will_message)
        ∷ comma
        ∷ num will_qos
        ∷ [])
    rsp ← wait_2 serial (codes ">") (codes "+CMQTTWILLMSG: ") 9000 true true
    prompt_switch will_message rsp

  -- The command of connect: the user and the password only when both are given.
  unfoldable pub connect_items : ℕ → Text → ℤ → Bool → ℤ → Option Text → Option Text → List Item
  connect_items client_index server port clean_session keepalive (some username) (some password) =
      txt "AT+CMQTTCONNECT="
      ∷ num client_index
      ∷ txt ",\"tcp://"
      ∷ Item.str server
      ∷ txt ":"
      ∷ Item.int port
      ∷ txt "\","
      ∷ Item.int keepalive
      ∷ comma
      ∷ bit clean_session
      ∷ txt ",\""
      ∷ Item.str username
      ∷ txt "\",\""
      ∷ Item.str password
      ∷ txt "\""
      ∷ []
  connect_items client_index server port clean_session keepalive _ _ =
      txt "AT+CMQTTCONNECT="
      ∷ num client_index
      ∷ txt ",\"tcp://"
      ∷ Item.str server
      ∷ txt ":"
      ∷ Item.int port
      ∷ txt "\","
      ∷ Item.int keepalive
      ∷ comma
      ∷ bit clean_session
      ∷ []

  unfoldable pub connect : ℕ → Text → ℤ → Bool → ℤ → Option Text → Option Text → Cmd S ℤ
  connect client_index server port clean_session keepalive username password = do
    send_cmd serial
        (connect_items client_index server port clean_session keepalive username password)
    rsp ← wait_1 serial (codes "+CMQTTCONNECT: ") 9000 false false
    on_match serial (second_code serial) rsp

  unfoldable pub connected_switch : Response → Cmd S Bool
  connected_switch Response.match_1st = do retcode ← parse_int_clear serial; pure (is_zero retcode)
  connected_switch _ = pure false

  unfoldable pub is_connected : ℕ → Cmd S Bool
  is_connected client_index = do
    send_cmd serial (txt "AT+CMQTTDISC?" ∷ [])
    rsp ←
        wait_1 serial
          (codes "+CMQTTDISC: "
            ++ (if client_index == 0 then codes "0" else codes "1")
            ++ codes ",")
          9000 false true
    connected_switch rsp

  unfoldable pub disconnect : ℕ → ℕ → Cmd S ℤ
  disconnect client_index seconds = do
    send_cmd serial (txt "AT+CMQTTDISC=" ∷ num client_index ∷ comma ∷ num seconds ∷ [])
    rsp ← wait_1 serial (codes "+CMQTTDISC: ") (seconds * 1000) false true
    on_match serial (second_code serial) rsp

  unfoldable pub set_topic : ℕ → Text → Cmd S ℤ
  set_topic client_index topic = do
    send_cmd serial
        (txt "AT+CMQTTTOPIC=" ∷ num client_index ∷ comma ∷ Item.unsigned_int (length topic) ∷ [])
    rsp ← wait_2 serial (codes ">") (codes "+CMQTTTOPIC: ") 9000 true true
    prompt_switch topic rsp

  -- The payload is the list of its `length` bytes.
  unfoldable pub set_payload : ℕ → Text → Cmd S ℤ
  set_payload client_index payload = do
    send_cmd serial (
        txt "AT+CMQTTPAYLOAD=" ∷ num client_index ∷ comma ∷ Item.unsigned_int (length payload) ∷ [])
    rsp ← wait_2 serial (codes ">") (codes "+CMQTTTPAYLOAD: ") 9000 true true
    prompt_switch payload rsp

  unfoldable pub publish : ℕ → ℕ → ℕ → Bool → Bool → Cmd S ℤ
  publish client_index qos pub_timeout retained dup = do
    send_cmd serial (
        txt "AT+CMQTTPUB="
        ∷ num client_index
        ∷ comma
        ∷ num qos
        ∷ comma
        ∷ num pub_timeout
        ∷ comma
        ∷ bit retained
        ∷ comma
        ∷ bit dup
        ∷ [])
    rsp ← wait_1 serial (codes "+CMQTTPUB: ") 9000 false true
    on_match serial (second_code serial) rsp

  unfoldable pub subscribed : Response → Cmd S ℤ
  subscribed Response.match_1st = second_code serial
  subscribed _ = pure generic_error

  unfoldable pub subscribe_switch : Text → Response → Cmd S ℤ
  subscribe_switch topic Response.match_1st = do
    serial.write topic
    flushed serial
    rsp ← wait_1 serial (codes "+CMQTTSUB: ") 9000 false true
    subscribed rsp
  subscribe_switch topic Response.match_2nd = second_code serial
  subscribe_switch topic Response.timeout = pure timed_out
  subscribe_switch topic _ = pure generic_error

  unfoldable pub subscribe : ℕ → Text → ℕ → Cmd S ℤ
  subscribe client_index topic qos = do
    send_cmd serial (
        txt "AT+CMQTTSUB="
        ∷ num client_index
        ∷ comma
        ∷ Item.unsigned_int (length topic)
        ∷ comma
        ∷ num qos
        ∷ [])
    rsp ← wait_2 serial (codes ">") (codes "+CMQTTSUB: ") 9000 false true
    subscribe_switch topic rsp
