-- ===== src/Commands/Ssl.antt =====
-- src/commands/ssl.h: the TLS settings and the certificates.
use a76xx.Prelude.{ℕ, if◌then◌else◌, Bool, true, false, [], ◌∷◌, length, codes}
use a76xx.Prelude.Int.{ℤ, is_zero}
use a76xx.Serial.{
  Text, Response, Item, ModemSerial, Cmd, ◌>>=◌, ◌>>◌, pure, succeeded, txt, num, comma, send_cmd,
  wait_1, wait_ok, clear, process, on_match, write_text,
}

module _ {S F : Type 0} (serial : ModemSerial S F) where
  unfoldable pub config_ssl_sslversion : ℕ → ℕ → Cmd S ℤ
  config_ssl_sslversion ssl_ctx_index ssl_version = do
    send_cmd serial
        (txt "AT+CSSLCFG=\"sslversion\"," ∷ num ssl_ctx_index ∷ comma ∷ num ssl_version ∷ [])
    process serial (wait_ok serial)

  unfoldable pub config_ssl_authmode : ℕ → ℕ → Cmd S ℤ
  config_ssl_authmode ssl_ctx_index authmode = do
    send_cmd serial (txt "AT+CSSLCFG=\"authmode\"," ∷ num ssl_ctx_index ∷ comma ∷ num authmode ∷ [])
    process serial (wait_ok serial)

  unfoldable pub config_ssl_ignorelocaltime : ℕ → ℕ → Cmd S ℤ
  config_ssl_ignorelocaltime ssl_ctx_index ignorelocaltime = do
    send_cmd serial (
        txt "AT+CSSLCFG=\"ignorelocaltime\","
        ∷ num ssl_ctx_index
        ∷ comma
        ∷ num ignorelocaltime
        ∷ [])
    process serial (wait_ok serial)

  unfoldable pub config_ssl_negotiatetime : ℕ → ℕ → Cmd S ℤ
  config_ssl_negotiatetime ssl_ctx_index negotiatetime = do
    send_cmd serial (
        txt "AT+CSSLCFG=\"negotiatetime\","
        ∷ num ssl_ctx_index
        ∷ comma
        ∷ Item.u16 negotiatetime
        ∷ [])
    process serial (wait_ok serial)

  unfoldable pub config_ssl_cacert : ℕ → Text → Cmd S ℤ
  config_ssl_cacert ssl_ctx_index ca_file = do
    send_cmd serial (
        txt "AT+CSSLCFG=\"cacert\","
        ∷ num ssl_ctx_index
        ∷ txt ",\""
        ∷ Item.str ca_file
        ∷ txt "\""
        ∷ [])
    process serial (wait_ok serial)

  unfoldable pub config_ssl_clientcert : ℕ → Text → Cmd S ℤ
  config_ssl_clientcert ssl_ctx_index clientcert_file = do
    send_cmd serial (
        txt "AT+CSSLCFG=\"clientcert\","
        ∷ num ssl_ctx_index
        ∷ comma
        ∷ Item.str clientcert_file
        ∷ [])
    process serial (wait_ok serial)

  unfoldable pub config_ssl_clientkey : ℕ → Text → Cmd S ℤ
  config_ssl_clientkey ssl_ctx_index clientkey_file = do
    send_cmd serial
        (txt "AT+CSSLCFG=\"clientkey\"," ∷ num ssl_ctx_index ∷ comma ∷ Item.str clientkey_file ∷ [])
    process serial (wait_ok serial)

  unfoldable pub config_ssl_password : ℕ → Text → Cmd S ℤ
  config_ssl_password ssl_ctx_index password_file = do
    send_cmd serial
        (txt "AT+CSSLCFG=\"password\"," ∷ num ssl_ctx_index ∷ comma ∷ Item.str password_file ∷ [])
    process serial (wait_ok serial)

  unfoldable pub config_ssl_context : ℕ → ℕ → Cmd S ℤ
  config_ssl_context ssl_ctx_index enable_sni_flag = do
    send_cmd serial
        (txt "AT+CSSLCFG=\"enableSNI\"," ∷ num ssl_ctx_index ∷ comma ∷ num enable_sni_flag ∷ [])
    process serial (wait_ok serial)

  unfoldable pub cert_download : Text → Text → Cmd S ℤ
  cert_download cert certname = do
    send_cmd serial (
        txt "AT+CCERTDOWN=\""
        ∷ Item.str certname
        ∷ txt "\","
        ∷ Item.unsigned_int (length cert)
        ∷ [])
    rsp ← wait_1 serial (codes ">") 120000 true true
    on_match serial (write_text serial cert) rsp

  unfoldable pub exists_switch : Response → Cmd S Bool
  exists_switch Response.match_1st = do clear serial 500; pure true
  exists_switch _ = pure false

  unfoldable pub cert_exists : Text → Cmd S Bool
  cert_exists certname = do
    send_cmd serial (txt "AT+CCERTLIST" ∷ [])
    rsp ← wait_1 serial certname 120000 true true
    exists_switch rsp

  unfoldable pub cert_delete : Text → Cmd S ℤ
  cert_delete certname = do
    send_cmd serial (txt "AT+CCERTDELE=\"" ∷ Item.str certname ∷ txt "\"" ∷ [])
    process serial (wait_ok serial)

  unfoldable pub set_ssl_context : ℕ → ℕ → Cmd S ℤ
  set_ssl_context session_id ssl_ctx_index = do
    send_cmd serial (txt "AT+CCHSSLCFG=" ∷ num session_id ∷ comma ∷ num ssl_ctx_index ∷ [])
    process serial (wait_ok serial)

  -- certOverwrite: the deletion of a certificate that exists, 0 where there is none.
  unfoldable pub delete_if : Bool → Text → Cmd S ℤ
  delete_if true certname = cert_delete certname
  delete_if false certname = pure succeeded

  unfoldable pub cert_overwrite : Text → Text → Cmd S ℤ
  cert_overwrite cert certname = do
    found ← cert_exists certname
    retcode ← delete_if found certname
    if is_zero retcode then cert_download cert certname else pure retcode
