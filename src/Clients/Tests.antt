-- ===== src/Clients/Tests.antt =====
-- Runs of the clients and of the modem over a scripted module.
use a76xx.Prelude.{
  ℕ, replicate, List, ◌<◌, ◌≤◌, true, false, none, some, [], ◌∷◌, ◌++◌, length, drop, take, codes,
  ◌≡◌, ◌↔◌, ◌⊎◌, zero, suc, arith,
}
use a76xx.Prelude.Int.{pos, is_zero}
use a76xx.Serial.{Text, Response, timed_out, ◌>>=◌, pure}
use a76xx.Serial.Script.{Script, scripted, start}
use a76xx.Clients.{Session}
use a76xx.Clients.Steps.{Follows}
use a76xx.Clients.Http.{string_at, credentials_text, add_header, add_basic_authentication}
use a76xx.Clients.Http.Credentials.{add_basic_authentication_lem}
use a76xx.Base64.{encode_base64}
use a76xx.Base64.Decode.{decode}
use a76xx.Commands.Gnss.{select_output_port, enable_nmea_output}
use a76xx.Clients.Gnss.{Queue, GnssClient, enable_nmea_stream, disable_nmea_stream}
use a76xx.Clients.Gnss.Stream.{disable_nmea_stream-enable_nmea_stream}
use a76xx.Clients.Order.{
  publish-Follows, set_certs-Follows, connect-Follows, ca_cert_commands, client_commands,
  will_commands,
}
use a76xx.Clients.Secure.{set_certs, ssl_ctx_index}
use a76xx.Clients.Mqtt.{MqttClient, connect, publish, client_index, read_field}
use a76xx.Clients.Mqtt.Message.{read_field_lem}
use a76xx.Commands.Ssl.{config_ssl_authmode}
use a76xx.Commands.Mqtt.{set_topic, set_payload}
use a76xx.Commands.Mqtt.{connect as connect_cmd, publish as publish_cmd}
use a76xx.Modem.{wait_at, is_ok, get_registration_status}
use a76xx.Modem.Wait.{wait_at_lem, answer}
use a76xx.Modem.Registration.{get_registration_status_lem, reported}
use a76xx.Serial.Handlers.{
  Handlers, active, erase, de_register_event_handler, de_register_event_handler_lem,
}

abbrev topic : Text
topic = codes "lamp"

abbrev payload : Text
payload = codes "on"

publish_example :
    Follows
      (set_topic scripted client_index topic
        ∷ set_payload scripted client_index payload
        ∷ publish_cmd scripted client_index 1 60 false false
        ∷ [])
      (publish scripted topic payload 1 60 false false)
publish_example = publish-Follows scripted topic payload 1 60 false false

set_certs_example :
    Follows
      ((ca_cert_commands scripted (codes "ca")
          ++ client_commands scripted (codes "c") (codes "k") (codes "p"))
        ++ config_ssl_authmode scripted ssl_ctx_index 2 ∷ [])
      (set_certs scripted (codes "ca") (codes "c") (codes "k") (codes "p"))
set_certs_example = set_certs-Follows scripted (codes "ca") (codes "c") (codes "k") (codes "p")

connect_example :
    Follows
      (will_commands scripted (some topic) (some payload) (pos 1)
        ++ connect_cmd scripted client_index (codes "host") (pos 1883) true (pos 60) none none ∷ [])
      (connect scripted
        (codes "host")
        (pos 1883)
        true
        (pos 60)
        none
        none
        (some topic)
        (some payload)
        (pos 1))
connect_example =
    connect-Follows scripted (codes "host") (pos 1883) true (pos 60) none none (some topic)
      (some payload) (pos 1)

abbrev client : MqttClient
client = record { client_id = codes "dev"; use_ssl = true }

-- An announced length of 2 for an array of 4.
abbrev field_line : Script
field_line = start [] [] (codes "on")

abbrev field : Text
field = 9 ∷ 9 ∷ 9 ∷ 9 ∷ []

take_short : (n : ℕ) (xs : Text) → length (take n xs) ≤ n
take_short zero xs = omega arith
take_short (suc n) [] = omega arith
take_short (suc n) (x ∷ xs) = omega (arith, take_short n xs)

read_field_example :
    (((read_field scripted 2 field field_line).0 ≡ none) ↔ (4 ≤ 2))
    × ((text : Text)
        → (scripted.read_bytes (pos 2) field_line).0 ≡ (2, text)
        → length text ≡ 2
        → 2 < 4
        → (read_field scripted 2 field field_line).0 ≡ some (text ++ 0 ∷ drop 3 field))
read_field_example = read_field_lem scripted (λ n s. take_short n s.line) 2 field field_line

-- A module that answers the second AT.
abbrev late : Script
late = start (Response.timeout ∷ Response.ok ∷ []) [] []

abbrev no_pause : ℕ → Script → Script
no_pause millis s = s

wait_at_example :
    ((wait_at scripted no_pause (is_ok scripted no_pause) 3 late).0 ≡ true)
    ↔ ((k : ℕ) × (k < 3) × (is_ok scripted no_pause (answer scripted no_pause k late) ≡ true))
wait_at_example = wait_at_lem scripted no_pause (is_ok scripted no_pause) 3 late

abbrev session : Session Script
session = record { last_error = pos 0; port = start (Response.match_1st ∷ []) (pos 5 ∷ []) [] }

get_registration_status_example :
    (get_registration_status scripted no_pause (pos 77) 2 session).0
    ≡ elim (reported scripted no_pause 2 session.port) [ none ↦ timed_out | some z ↦ z ]
get_registration_status_example =
    get_registration_status_lem scripted no_pause (pos 77) 2 session (omega arith)

abbrev handlers : Handlers
handlers = record { table = 7 ∷ 8 ∷ 7 ∷ []; num = 3 }

de_register_event_handler_example :
    active (de_register_event_handler 0 handlers 7) ≡ erase 7 (active handlers)
de_register_event_handler_example = de_register_event_handler_lem 0 7 handlers (omega arith)

abbrev two_handlers : Handlers
two_handlers = record { table = 7 ∷ 8 ∷ 0 ∷ []; num = 2 }

abbrev messages : Queue (List Text)
messages = record {
  push = λ m q. m ∷ q;
  size = λ q. length q;
  shift = λ q. ([], q);
  clear = λ q. [];
}

-- A module that answers OK to all five commands, with one handler registered.
abbrev receiver : GnssClient Script (List Text)
receiver = record {
  session = record {
    last_error = pos 0;
    port = start (Response.ok ∷ Response.ok ∷ Response.ok ∷ Response.ok ∷ Response.ok ∷ []) [] [];
  };
  handlers = record { table = 7 ∷ 0 ∷ 0 ∷ []; num = 1 };
  nmea_queue = [];
}

disable_nmea_stream_example :
    let (started, g1) = enable_nmea_stream scripted messages (11 ∷ 12 ∷ []) 1 5 receiver in
    let (stopped, g2) = disable_nmea_stream scripted messages 0 (11 ∷ 12 ∷ []) true g1 in
    ((is_zero (select_output_port scripted true true receiver.session.port).0 ≡ false)
      × (started ≡ false)
      × (g1.handlers ≡ receiver.handlers))
    ⊎ ((is_zero (select_output_port scripted true true receiver.session.port).0 ≡ true)
        × (active g1.handlers ≡ active receiver.handlers ++ 11 ∷ 12 ∷ [])
        × (((is_zero (enable_nmea_output scripted false g1.session.port).0 ≡ true)
              × (stopped ≡ true)
              × (active g2.handlers ≡ active receiver.handlers))
            ⊎ ((is_zero (enable_nmea_output scripted false g1.session.port).0 ≡ false)
                × (stopped ≡ false)
                × (g2.handlers ≡ g1.handlers))))
disable_nmea_stream_example =
    disable_nmea_stream-enable_nmea_stream scripted messages 0 (11 ∷ 12 ∷ []) 1 5 true receiver
      (omega arith) (omega arith) ((omega arith, tt), ((omega arith, tt), tt))

-- What an array of 89 bytes and the bytes behind it hold.
abbrev memory : List ℕ
memory = replicate 100 b'x' ++ 0 ∷ []

abbrev credentials : Text
credentials = codes "joe" ++ codes ":" ++ codes "pw"

add_basic_authentication_example :
    (add_basic_authentication scripted memory (codes "joe") (codes "pw") session ≡ (
      (do
        added ← add_header scripted (codes "Authorization") (
            credentials_text (
              codes "Basic "
              ++ encode_base64 credentials (length credentials)
              ++ string_at (drop (length (encode_base64 credentials (length credentials))) memory)))
        pure (some added))
        session))
    × (length (encode_base64 credentials (length credentials)) ≤ 88)
    × (decode (encode_base64 credentials (length credentials)) ≡ credentials)
add_basic_authentication_example =
    add_basic_authentication_lem scripted memory (codes "joe") (codes "pw") session (omega arith)
      (omega arith) (omega arith) (ground arith)
