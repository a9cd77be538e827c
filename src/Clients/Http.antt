-- ===== src/Clients/Http.antt =====
-- src/clients/http.cpp, and get and post of src/clients/http.h: the HTTP client.
pub mod Credentials
use a76xx.Prelude.{
  ℕ, ◌+◌, ◌-◌, ◌%◌, ◌^◌, ltb, if◌then◌else◌, Bool, true, false, Option, none, some, List, [], ◌∷◌,
  ◌++◌, ◌==◌, length, take, copy_at, codes,
}
use a76xx.Prelude.Int.{ℤ, is_zero}
use a76xx.Serial.{Text, ModemSerial, Cmd, ◌>>=◌, ◌>>◌, pure}
use a76xx.Clients.{Session, assert_bool}
use a76xx.Base64.{encode_base64}
use a76xx.Commands.Http.{
  init, term, config_http_user_data, read_header, read_response_body, config_http_url,
  config_http_accept, config_http_content_type, input_data, action,
}

-- The members of the client.
pub record HttpClient : Type 0 where
  pub server_name : Text
  pub server_port : ℕ
  pub use_ssl : Bool
  pub user_agent : Option Text

-- `_last_status_code` and `_last_body_length`.
pub record LastResponse : Type 0 where
  pub status_code : ℕ
  pub body_length : ℕ

-- What `snprintf` with the size of `credentials` leaves before the terminating null character.
unfoldable pub credentials_text : Text → Text
credentials_text text = take 94 text

-- The string that stands in an array: the characters before the first null character.
unfoldable pub string_at : List ℕ → Text
string_at [] = []
string_at (x ∷ memory) = if x == 0 then [] else x ∷ string_at memory

module _ {S F : Type 0} (serial : ModemSerial S F) where
  unfoldable pub begin : Cmd (Session S) Bool
  begin = assert_bool (init serial) (pure true)

  unfoldable pub end_client : Cmd (Session S) Bool
  end_client = assert_bool (term serial) (pure true)

  unfoldable pub add_header : Text → Text → Cmd (Session S) Bool
  add_header header value = assert_bool (config_http_user_data serial header value) (pure true)

  -- `memory` is what the uninitialised array `output` and the bytes behind it hold, since
  -- encodeBase64 does not terminate what it writes. `none` stands for a write behind the 89 bytes of
  -- `output`, whose effect is not defined.
  unfoldable pub add_basic_authentication : List ℕ → Text → Text → Cmd (Session S) (Option Bool)
  add_basic_authentication memory username password =
      let credentials = credentials_text (username ++ codes ":" ++ password) in
      let encoded = encode_base64 credentials (length credentials) in
      if ltb 89 (length encoded) then pure none else (do
        added ←
            add_header (codes "Authorization")
              (credentials_text (codes "Basic " ++ string_at (copy_at memory 0 encoded)))
        pure (some added))

  -- A method with an output: what was read, `none` where nothing was, and whether it succeeded.
  unfoldable pub assert_read :
      {A : Type 0} → Cmd S (ℤ × Option A) → Cmd (Session S) (Bool × Option A)
  assert_read m c =
      let ((retcode, text), s) = m c.port in
      if is_zero retcode
      then ((true, text), record { last_error = c.last_error; port = s })
      else ((false, text), record { last_error = retcode; port = s })

  unfoldable pub get_response_header : ℕ → Cmd (Session S) (Bool × Option Text)
  get_response_header max_len = assert_read (read_header serial max_len)

  -- `max_len - 1` wraps for an empty buffer.
  unfoldable pub get_response_body : LastResponse → ℕ → Cmd (Session S) (Bool × Option Text)
  get_response_body last max_len =
      if ltb ((max_len + (2 ^ 32 - 1)) % 2 ^ 32) last.body_length
      then pure (false, none)
      else assert_read (read_response_body serial last.body_length)

  -- An optional setting, whose command is checked, in front of the rest.
  unfoldable pub optional_step :
      Option Text
      → (Text → Cmd S ℤ)
      → Cmd (Session S) (Bool × LastResponse)
      → LastResponse
      → Cmd (Session S) (Bool × LastResponse)
  optional_step none command rest last c = rest c
  optional_step (some text) command rest last c =
      let (retcode, s) = command text c.port in
      if is_zero retcode
      then rest (record { last_error = c.last_error; port = s })
      else ((false, last), record { last_error = retcode; port = s })

  -- The user agent is set without a check of the result.
  unfoldable pub set_user_agent : Option Text → Cmd (Session S) Unit
  set_user_agent none = pure tt
  set_user_agent (some user_agent) = do add_header (codes "User-Agent") user_agent; pure tt

  -- The outputs of the action stay as they were when it has none.
  unfoldable pub updated : LastResponse → Option (ℕ × ℕ) → LastResponse
  updated last none = last
  updated last (some (status_code, len)) = record { status_code = status_code; body_length = len }

  unfoldable pub run_action : ℕ → LastResponse → Cmd (Session S) (Bool × LastResponse)
  run_action method last c =
      let ((retcode, output), s) = action serial method c.port in
      if is_zero retcode
      then ((true, updated last output), record { last_error = c.last_error; port = s })
      else ((false, updated last output), record { last_error = retcode; port = s })

  unfoldable pub request :
      HttpClient
      → LastResponse
      → ℕ
      → Text
      → Option Text
      → Option Text
      → Option Text
      → Cmd (Session S) (Bool × LastResponse)
  request client last method path content_body content_type accept =
      optional_step (some path)
        (λ p. config_http_url serial client.server_name client.server_port p client.use_ssl)
        (do
          set_user_agent client.user_agent
          optional_step accept (config_http_accept serial)
              (optional_step content_type (config_http_content_type serial)
                (optional_step content_body (input_data serial) (run_action method last) last) last)
              last)
        last

  unfoldable pub get :
      HttpClient → LastResponse → Text → Option Text → Cmd (Session S) (Bool × LastResponse)
  get client last path accept = request client last 0 path none none accept

  unfoldable pub post :
      HttpClient
      → LastResponse
      → Text
      → Text
      → Option Text
      → Option Text
      → Cmd (Session S) (Bool × LastResponse)
  post client last path content_body content_type accept =
      request client last 1 path (some content_body) content_type accept
