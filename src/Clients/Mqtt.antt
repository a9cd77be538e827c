-- ===== src/Clients/Mqtt.antt =====
-- src/clients/mqtt.cpp: the MQTT client.
pub mod Message
use a76xx.Prelude.{
  ℕ, ◌+◌, ◌-◌, ltb, if◌then◌else◌, Bool, true, Option, none, some, [], ◌∷◌, length, codes,
}
use a76xx.Prelude.Int.{ℤ, pos, uint8, uint16}
use a76xx.Serial.{Text, ModemSerial, Cmd, ◌>>=◌, ◌>>◌, pure, wait_1}
use a76xx.Clients.{Session, lift, assert_bool}
use a76xx.Clients.Sms.Receive.{store}
use a76xx.Commands.Mqtt.{
  start, stop, acquire_client, release_client, set_ssl_context, set_will_topic, set_will_message,
  set_topic, set_payload,
}
use a76xx.Commands.Mqtt.{
  connect as connect_cmd, disconnect as disconnect_cmd, publish as publish_cmd,
  subscribe as subscribe_cmd, is_connected as is_connected_cmd,
}

-- The members that the constructor sets: `_client_index` and `_session_id` are 0.
pub record MqttClient : Type 0 where
  pub client_id : Text
  pub use_ssl : Bool

abbrev pub client_index : ℕ
client_index = 0

module _ {S F : Type 0} (serial : ModemSerial S F) where
  unfoldable pub begin : MqttClient → Cmd (Session S) Bool
  begin client = assert_bool (start serial) (
      assert_bool
        (acquire_client serial client_index client.client_id (if client.use_ssl then 1 else 0))
        (if client.use_ssl
          then assert_bool (set_ssl_context serial 0 0) (pure true)
          else pure true))

  -- The part of connect behind the last will.
  unfoldable pub connect_server :
      Text → ℤ → Bool → ℤ → Option Text → Option Text → Cmd (Session S) Bool
  connect_server server_name port clean_session keepalive username password =
      assert_bool
        (connect_cmd serial client_index server_name port clean_session keepalive username password)
        (pure true)

  -- The last will is set when it has a topic and a message; `will_qos` is converted to `uint8_t`.
  unfoldable pub set_will :
      Option Text → Option Text → ℤ → Cmd (Session S) Bool → Cmd (Session S) Bool
  set_will (some will_topic) (some will_message) will_qos rest =
      assert_bool (set_will_topic serial client_index will_topic)
        (assert_bool (set_will_message serial client_index will_message (uint8 will_qos)) rest)
  set_will _ _ will_qos rest = rest

  unfoldable pub connect :
      Text
      → ℤ
      → Bool
      → ℤ
      → Option Text
      → Option Text
      → Option Text
      → Option Text
      → ℤ
      → Cmd (Session S) Bool
  connect server_name port clean_session keepalive username password will_topic will_message
        will_qos =
      set_will will_topic will_message will_qos
        (connect_server server_name port clean_session keepalive username password)

  unfoldable pub disconnect : ℕ → Cmd (Session S) Bool
  disconnect seconds = assert_bool (disconnect_cmd serial client_index seconds) (pure true)

  unfoldable pub end_client : Cmd (Session S) Bool
  end_client =
      assert_bool (release_client serial client_index) (assert_bool (stop serial) (pure true))

  -- Both overloads: the payload is the list of its bytes.
  unfoldable pub publish : Text → Text → ℕ → ℕ → Bool → Bool → Cmd (Session S) Bool
  publish topic payload qos pub_timeout retained dup =
      assert_bool (set_topic serial client_index topic) (
        assert_bool (set_payload serial client_index payload)
          (assert_bool (publish_cmd serial client_index qos pub_timeout retained dup) (pure true)))

  unfoldable pub subscribe : Text → ℕ → Cmd (Session S) Bool
  subscribe topic qos = assert_bool (subscribe_cmd serial client_index topic qos) (pure true)

  unfoldable pub is_connected : Cmd (Session S) Bool
  is_connected = lift (is_connected_cmd serial client_index)

  -- `readBytes` into an array that holds `old`, for the length `len` that the module announced, and
  -- the null character: what the array holds then, `none` when a byte is stored outside of it.
  unfoldable pub read_field : ℕ → Text → Cmd S (Option Text)
  unfolding store
  read_field len old =
      let size = length old in
      if ltb len size
      then (do
        (read_len, text) ← serial.read_bytes (pos len)
        pure (store old 0 text (λ field. store field len (0 ∷ []) (λ done'. some done'))))
      else (do
        (skip_len, head) ← serial.read_bytes (pos (len - size + 1))
        (read_len, text) ← serial.read_bytes (pos (size - 1))
        pure (
            store old 0 head (λ skipped.
              store skipped 0 text (λ field. store field size (0 ∷ []) (λ done'. some done')))))

  -- MQTTOnMessageRx::process: the topic and the payload that the callback is given, in the arrays of
  -- 32 and 64 bytes that hold `topic` and `payload` at first; the callback is not under this state.
  unfoldable pub on_message : Text → Text → Cmd S (Option Text × Option Text)
  on_message topic payload = do
    serial.find b','
    topic_length ← serial.parse_int
    serial.find b','
    payload_length ← serial.parse_int
    wait_1 serial (codes "+CMQTTRXTOPIC: ") 1000 true true
    serial.find b'\n'
    topic' ← read_field (uint16 topic_length) topic
    wait_1 serial (codes "+CMQTTRXPAYLOAD: ") 1000 true true
    serial.find b'\n'
    payload' ← read_field (uint16 payload_length) payload
    wait_1 serial (codes "+CMQTTRXEND: ") 1000 true true
    serial.find b'\n'
    pure (topic', payload')
