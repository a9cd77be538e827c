-- ===== src/Clients/Secure.antt =====
-- src/clients/secure.cpp: the certificates and the TLS settings of a client.
use a76xx.Prelude.{ℕ, if◌then◌else◌, Bool, true, false}
use a76xx.Serial.{Text, ModemSerial, Cmd, ◌>>=◌, pure}
use a76xx.Clients.{Session, assert_bool}
use a76xx.Commands.Ssl.{
  config_ssl_cacert, config_ssl_authmode, cert_overwrite, config_ssl_clientcert,
  config_ssl_clientkey, config_ssl_password, config_ssl_sslversion, config_ssl_ignorelocaltime,
  config_ssl_negotiatetime,
}

-- `_ssl_ctx_index`, which the constructor sets to 0.
abbrev pub ssl_ctx_index : ℕ
ssl_ctx_index = 0

module _ {S F : Type 0} (serial : ModemSerial S F) where
  unfoldable pub set_ca_cert : Text → Cmd (Session S) Bool
  set_ca_cert cacertname =
      assert_bool (config_ssl_cacert serial ssl_ctx_index cacertname)
        (assert_bool (config_ssl_authmode serial ssl_ctx_index 1) (pure true))

  unfoldable pub write_ca_cert : Text → Text → Cmd (Session S) Bool
  write_ca_cert cacert cacertname =
      assert_bool (cert_overwrite serial cacert cacertname) (set_ca_cert cacertname)

  unfoldable pub set_client_cert_and_key : Text → Text → Text → Cmd (Session S) Bool
  set_client_cert_and_key clientcertname clientkeyname passwordname =
      assert_bool (config_ssl_clientcert serial ssl_ctx_index clientcertname) (
        assert_bool (config_ssl_clientkey serial ssl_ctx_index clientkeyname) (
          assert_bool (config_ssl_password serial ssl_ctx_index passwordname)
            (assert_bool (config_ssl_authmode serial ssl_ctx_index 3) (pure true))))

  unfoldable pub write_client_cert_and_key :
      Text → Text → Text → Text → Text → Text → Cmd (Session S) Bool
  write_client_cert_and_key clientcert clientkey password clientcertname clientkeyname
        passwordname =
      assert_bool (cert_overwrite serial clientcert clientcertname) (
        assert_bool (cert_overwrite serial clientkey clientkeyname) (
          assert_bool (cert_overwrite serial password passwordname)
            (set_client_cert_and_key clientcertname clientkeyname passwordname)))

  unfoldable pub set_certs : Text → Text → Text → Text → Cmd (Session S) Bool
  set_certs cacertname clientcertname clientkeyname passwordname = do
    ca ← set_ca_cert cacertname
    client ←
        (if ca
          then set_client_cert_and_key clientcertname clientkeyname passwordname
          else pure false)
    if client
        then assert_bool (config_ssl_authmode serial ssl_ctx_index 2) (pure true)
        else pure false

  unfoldable pub config_ssl : ℕ → ℕ → ℕ → Cmd (Session S) Bool
  config_ssl sslversion ignorelocaltime negotiatetime =
      assert_bool (config_ssl_sslversion serial ssl_ctx_index sslversion) (
        assert_bool (config_ssl_ignorelocaltime serial ssl_ctx_index ignorelocaltime)
          (assert_bool (config_ssl_negotiatetime serial ssl_ctx_index negotiatetime) (pure true)))
