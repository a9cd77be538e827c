-- ===== src/Clients/Order.antt =====
-- The clients' functions of src/clients and of src/modem.cpp against their specification: which
-- commands they run, and in which order.
use a76xx.Prelude.{ℕ, Bool, true, false, if◌then◌else◌, Option, none, some, List, [], ◌∷◌, ◌++◌}
use a76xx.Prelude.Int.{ℤ, uint8}
use a76xx.Serial.{Text, Cmd, ModemSerial, pure}
use a76xx.Clients.{assert_bool}
use a76xx.Clients.Steps.{Follows, pure-Follows, assert_bool-Follows, both-Follows}
use a76xx.Clients.Secure.{
  set_ca_cert, set_client_cert_and_key, write_client_cert_and_key, set_certs, ssl_ctx_index,
}
use a76xx.Clients.Mqtt.{MqttClient, begin, connect, connect_server, set_will, publish, client_index}
use a76xx.Commands.Ssl.{
  config_ssl_cacert, config_ssl_authmode, cert_overwrite, config_ssl_clientcert,
  config_ssl_clientkey, config_ssl_password,
}
use a76xx.Commands.Mqtt.{
  start, acquire_client, set_ssl_context, set_will_topic, set_will_message, set_topic, set_payload,
}
use a76xx.Commands.Mqtt.{connect as connect_cmd, publish as publish_cmd}

module _ {S F : Type 0} (serial : ModemSerial S F) where
  one : (m : Cmd S ℤ) → Follows (m ∷ []) (assert_bool m (pure true))
  one m = assert_bool-Follows m [] (pure true) (pure-Follows S)

  two : (m m' : Cmd S ℤ) → Follows (m ∷ m' ∷ []) (assert_bool m (assert_bool m' (pure true)))
  two m m' = assert_bool-Follows m (m' ∷ []) (assert_bool m' (pure true)) (one m')

  -- publish runs the commands of the topic, the payload and the publication, in this order up to
  -- the first failure, whose code it keeps.
  pub publish-Follows :
      (topic payload : Text) (qos pub_timeout : ℕ) (retained dup : Bool)
      → Follows
          (set_topic serial client_index topic
            ∷ set_payload serial client_index payload
            ∷ publish_cmd serial client_index qos pub_timeout retained dup
            ∷ [])
          (publish serial topic payload qos pub_timeout retained dup)
  unfolding publish
  publish-Follows topic payload qos pub_timeout retained dup = assert_bool-Follows _ _ _ (two _ _)

  unfoldable pub ca_cert_commands : Text → List (Cmd S ℤ)
  ca_cert_commands cacertname =
      config_ssl_cacert serial ssl_ctx_index cacertname
      ∷ config_ssl_authmode serial ssl_ctx_index 1
      ∷ []

  unfoldable pub client_commands : Text → Text → Text → List (Cmd S ℤ)
  client_commands clientcertname clientkeyname passwordname =
      config_ssl_clientcert serial ssl_ctx_index clientcertname
      ∷ config_ssl_clientkey serial ssl_ctx_index clientkeyname
      ∷ config_ssl_password serial ssl_ctx_index passwordname
      ∷ config_ssl_authmode serial ssl_ctx_index 3
      ∷ []

  set_ca_cert-Follows :
      (cacertname : Text) → Follows (ca_cert_commands cacertname) (set_ca_cert serial cacertname)
  unfolding set_ca_cert ca_cert_commands
  set_ca_cert-Follows cacertname = two _ _

  set_client_cert_and_key-Follows :
      (clientcertname clientkeyname passwordname : Text)
      → Follows
          (client_commands clientcertname clientkeyname passwordname)
          (set_client_cert_and_key serial clientcertname clientkeyname passwordname)
  unfolding set_client_cert_and_key client_commands
  set_client_cert_and_key-Follows clientcertname clientkeyname passwordname =
      assert_bool-Follows _ _ _ (assert_bool-Follows _ _ _ (two _ _))

  -- setCerts sets the certificate of the authority, then those of the client, and asks for both
  -- authentications last, up to the first failure, whose code it keeps.
  pub set_certs-Follows :
      (cacertname clientcertname clientkeyname passwordname : Text)
      → Follows
          ((ca_cert_commands cacertname
              ++ client_commands clientcertname clientkeyname passwordname)
            ++ config_ssl_authmode serial ssl_ctx_index 2 ∷ [])
          (set_certs serial cacertname clientcertname clientkeyname passwordname)
  unfolding set_certs
  set_certs-Follows cacertname clientcertname clientkeyname passwordname =
      both-Follows _ _ _ _
        (both-Follows _ _ _ _ (set_ca_cert-Follows cacertname)
          (set_client_cert_and_key-Follows clientcertname clientkeyname passwordname))
        (one _)

  -- writeClientCertAndKey stores the three files before it sets their names, up to the first
  -- failure, whose code it keeps.
  write_client_cert_and_key-Follows :
      (clientcert clientkey password clientcertname clientkeyname passwordname : Text)
      → Follows
          (cert_overwrite serial clientcert clientcertname
            ∷ cert_overwrite serial clientkey clientkeyname
            ∷ cert_overwrite serial password passwordname
            ∷ client_commands clientcertname clientkeyname passwordname)
          (write_client_cert_and_key serial clientcert clientkey password clientcertname
            clientkeyname passwordname)
  unfolding write_client_cert_and_key
  write_client_cert_and_key-Follows clientcert clientkey password clientcertname clientkeyname
        passwordname =
      assert_bool-Follows _ _ _ (
        assert_bool-Follows _ _ _ (
          assert_bool-Follows _ _ _
            (set_client_cert_and_key-Follows clientcertname clientkeyname passwordname)))

  unfoldable pub will_commands : Option Text → Option Text → ℤ → List (Cmd S ℤ)
  will_commands (some will_topic) (some will_message) will_qos =
      set_will_topic serial client_index will_topic
      ∷ set_will_message serial client_index will_message (uint8 will_qos)
      ∷ []
  will_commands _ _ will_qos = []

  set_will-Follows :
      (will_topic will_message : Option Text) (will_qos : ℤ) (m : Cmd S ℤ)
      → Follows
          (will_commands will_topic will_message will_qos ++ m ∷ [])
          (set_will serial will_topic will_message will_qos (assert_bool m (pure true)))
  unfolding set_will will_commands
  set_will-Follows (some will_topic) (some will_message) will_qos m =
      assert_bool-Follows _ _ _ (two _ m)
  set_will-Follows (some will_topic) none will_qos m = one m
  set_will-Follows none will_message will_qos m = one m

  -- connect sets the last will, when it has a topic and a message, before it connects, up to the
  -- first failure, whose code it keeps.
  pub connect-Follows :
      (server_name : Text) (port : ℤ) (clean_session : Bool) (keepalive : ℤ)
      (username password will_topic will_message : Option Text) (will_qos : ℤ)
      → Follows
          (will_commands will_topic will_message will_qos
            ++ connect_cmd serial client_index server_name port clean_session keepalive username
                password
              ∷ [])
          (connect serial server_name port clean_session keepalive username password will_topic
            will_message will_qos)
  unfolding connect connect_server
  connect-Follows server_name port clean_session keepalive username password will_topic will_message
        will_qos =
      set_will-Follows will_topic will_message will_qos _

  unfoldable pub tls_commands : Bool → List (Cmd S ℤ)
  tls_commands true = set_ssl_context serial 0 0 ∷ []
  tls_commands false = []

  tls-Follows :
      (use_ssl : Bool)
      → Follows
          (tls_commands use_ssl)
          (if use_ssl then assert_bool (set_ssl_context serial 0 0) (pure true) else pure true)
  unfolding tls_commands
  tls-Follows true = one _
  tls-Follows false = pure-Follows S

  -- begin starts the service, acquires the client, of type 1 under TLS and 0 otherwise, and sets the
  -- TLS context only then, up to the first failure, whose code it keeps.
  pub begin-Follows :
      (client : MqttClient)
      → Follows
          (start serial
            ∷ acquire_client serial client_index client.client_id (if client.use_ssl then 1 else 0)
            ∷ tls_commands client.use_ssl)
          (begin serial client)
  unfolding begin
  begin-Follows client =
      assert_bool-Follows _ _ _ (assert_bool-Follows _ _ _ (tls-Follows client.use_ssl))
