-- ===== src/Commands/Http.antt =====
-- src/commands/http.h: the parameters of a request, its action, header and body.
pub mod Bounds
use a76xx.Prelude.{
  ℕ, ◌+◌, ◌-◌, ◌%◌, ◌^◌, ltb, ◌==◌, if◌then◌else◌, Bool, true, false, not, ◌&&◌, Option, none, some,
  [], ◌∷◌, length, codes,
}
use a76xx.Prelude.Int.{ℤ, pos, int32, uint16, uint32}
use a76xx.Serial.{
  Text, Response, Item, ModemSerial, Cmd, ◌>>=◌, ◌>>◌, pure, succeeded, timed_out, generic_error,
  out_of_memory, txt, num, comma, send_cmd, wait_1, wait_0, wait_ok, flushed, parse_int_clear,
  process, on_match,
}
use a76xx.Commands.Sim.{contains}

module _ {S F : Type 0} (serial : ModemSerial S F) where
  unfoldable pub init : Cmd S ℤ
  init = do
    send_cmd serial (txt "AT+HTTPINIT" ∷ [])
    process serial (wait_0 serial 120000 true true)

  unfoldable pub term : Cmd S ℤ
  term = do
    send_cmd serial (txt "AT+HTTPTERM" ∷ [])
    process serial (wait_0 serial 120000 true true)

  -- What is printed in front of the server: the protocol, unless the server names one.
  unfoldable pub url_prefix : Text → Bool → Text
  url_prefix server use_ssl =
      if not (contains server (codes "https://")) && not (contains server (codes "http://"))
      then if use_ssl then codes "\"https://" else codes "\"http://"
      else codes "\""

  unfoldable pub config_http_url : Text → ℕ → Text → Bool → Cmd S ℤ
  config_http_url server port path use_ssl = do
    send_cmd serial (
        txt "AT+HTTPPARA=\"URL\","
        ∷ Item.str (url_prefix server use_ssl)
        ∷ Item.str server
        ∷ txt ":"
        ∷ Item.u16 port
        ∷ txt "/"
        ∷ Item.str path
        ∷ txt "\""
        ∷ [])
    process serial (wait_0 serial 120000 true true)

  unfoldable pub config_http_conn_timeout : ℤ → Cmd S ℤ
  config_http_conn_timeout conn_timeout = do
    send_cmd serial (txt "AT+HTTPPARA=\"CONNECTTO\"," ∷ Item.int conn_timeout ∷ [])
    process serial (wait_0 serial 120000 true true)

  unfoldable pub config_http_recv_timeout : ℤ → Cmd S ℤ
  config_http_recv_timeout recv_timeout = do
    send_cmd serial (txt "AT+HTTPPARA=\"RECVTO\"," ∷ Item.int recv_timeout ∷ [])
    process serial (wait_0 serial 120000 true true)

  unfoldable pub config_http_content_type : Text → Cmd S ℤ
  config_http_content_type content_type = do
    send_cmd serial (txt "AT+HTTPPARA=\"CONTENT\",\"" ∷ Item.str content_type ∷ txt "\"" ∷ [])
    process serial (wait_0 serial 120000 true true)

  unfoldable pub config_http_accept : Text → Cmd S ℤ
  config_http_accept accept = do
    send_cmd serial (txt "AT+HTTPPARA=\"ACCEPT\",\"" ∷ Item.str accept ∷ txt "\"" ∷ [])
    process serial (wait_0 serial 120000 true true)

  unfoldable pub config_http_ssl_cfg_id : ℕ → Cmd S ℤ
  config_http_ssl_cfg_id sslcfg_id = do
    send_cmd serial (txt "AT+HTTPPARA=\"SSLCFG\"," ∷ num sslcfg_id ∷ [])
    process serial (wait_0 serial 120000 true true)

  unfoldable pub config_http_user_data : Text → Text → Cmd S ℤ
  config_http_user_data header value = do
    send_cmd serial (
        txt "AT+HTTPPARA=\"USERDATA\",\""
        ∷ Item.str header
        ∷ txt ":"
        ∷ Item.str value
        ∷ txt "\""
        ∷ [])
    process serial (wait_0 serial 120000 true true)

  unfoldable pub config_http_read_mode : ℕ → Cmd S ℤ
  config_http_read_mode readmode = do
    send_cmd serial (txt "AT+HTTPPARA=\"READMODE\"," ∷ num readmode ∷ [])
    process serial (wait_0 serial 120000 true true)

  unfoldable pub action_switch : Response → Cmd S (ℤ × Option (ℕ × ℕ))
  action_switch Response.match_1st = do
    serial.parse_int
    serial.find b','
    status_code ← serial.parse_int
    serial.find b','
    len ← serial.parse_int
    pure (succeeded, some (uint16 status_code, uint32 len))
  action_switch Response.timeout = pure (timed_out, none)
  action_switch _ = pure (generic_error, none)

  -- The outputs are `*status_code` and `*length`.
  unfoldable pub action : ℕ → Cmd S (ℤ × Option (ℕ × ℕ))
  action method = do
    send_cmd serial (txt "AT+HTTPACTION=" ∷ num method ∷ [])
    rsp ← wait_1 serial (codes "+HTTPACTION: ") 120000 false true
    action_switch rsp

  -- The code of a text whose announced and stored lengths are known, when the last answer came.
  unfoldable pub length_code : Bool → ℕ → ℕ → ℤ
  length_code answered read_len announced =
      if answered then if read_len == announced then succeeded else generic_error else generic_error

  unfoldable pub is_ok : Response → Bool
  is_ok Response.ok = true
  is_ok _ = false

  unfoldable pub is_match_1st : Response → Bool
  is_match_1st Response.match_1st = true
  is_match_1st _ = false

  -- `max_len - 1` wraps for an empty buffer, and the comparison is one of unsigned numbers.
  unfoldable pub header_fits : ℕ → ℤ → Bool
  header_fits max_len header_length =
      not (ltb ((max_len + (2 ^ 32 - 1)) % 2 ^ 32) (uint32 header_length))

  unfoldable pub header_text : ℤ → Cmd S (ℤ × Option Text)
  header_text header_length = do
    serial.find b'\n'
    (read_len, header) ← serial.read_bytes header_length
    rsp ← wait_ok serial
    pure (length_code (is_ok rsp) read_len (uint32 header_length), some header)

  unfoldable pub header_switch : ℕ → Response → Cmd S (ℤ × Option Text)
  header_switch max_len Response.match_1st = do
    header_length ← serial.parse_int
    if header_fits max_len (int32 header_length)
        then header_text (int32 header_length)
        else pure (out_of_memory, none)
  header_switch max_len Response.timeout = pure (timed_out, none)
  header_switch max_len _ = pure (generic_error, none)

  unfoldable pub read_header : ℕ → Cmd S (ℤ × Option Text)
  read_header max_len = do
    send_cmd serial (txt "AT+HTTPHEAD" ∷ [])
    rsp ← wait_1 serial (codes "+HTTPHEAD: ") 120000 false true
    header_switch max_len rsp

  unfoldable pub content_switch : Response → Cmd S (ℤ × Option ℕ)
  content_switch Response.match_1st = do
    len ← parse_int_clear serial
    pure (succeeded, some (uint32 len))
  content_switch Response.timeout = pure (timed_out, none)
  content_switch _ = pure (generic_error, none)

  unfoldable pub get_content_length : Cmd S (ℤ × Option ℕ)
  get_content_length = do
    send_cmd serial (txt "AT+HTTPREAD?" ∷ [])
    rsp ← wait_1 serial (codes "+HTTPREAD: LEN,") 120000 false true
    content_switch rsp

  unfoldable pub body_text : ℕ → Cmd S (ℤ × Option Text)
  body_text body_length = do
    serial.find b'\n'
    (read_len, body) ← serial.read_bytes (int32 (pos body_length))
    rsp ← wait_1 serial (codes "+HTTPREAD: 0") 1000 true true
    pure (length_code (is_match_1st rsp) read_len body_length, some body)

  unfoldable pub body_switch : ℕ → Response → Cmd S (ℤ × Option Text)
  body_switch body_length Response.match_1st = do
    announced ← serial.parse_int
    if uint32 announced == body_length then body_text body_length else pure (generic_error, none)
  body_switch body_length Response.timeout = pure (timed_out, none)
  body_switch body_length _ = pure (generic_error, none)

  unfoldable pub read_response_body : ℕ → Cmd S (ℤ × Option Text)
  read_response_body body_length = do
    send_cmd serial (txt "AT+HTTPREAD=" ∷ num 0 ∷ comma ∷ Item.unsigned_int body_length ∷ [])
    rsp ← wait_1 serial (codes "+HTTPREAD: ") 120000 false true
    body_switch body_length rsp

  unfoldable pub write_data : Text → Cmd S ℤ
  write_data data_bytes = do
    serial.write data_bytes
    flushed serial
    process serial (wait_ok serial)

  -- The data is the list of its `length` bytes.
  unfoldable pub input_data : Text → Cmd S ℤ
  input_data data_bytes = do
    send_cmd serial
        (txt "AT+HTTPDATA=" ∷ Item.unsigned_int (length data_bytes) ∷ comma ∷ num 30 ∷ [])
    rsp ← wait_1 serial (codes "DOWNLOAD") 10000 false true
    on_match serial (write_data data_bytes) rsp
