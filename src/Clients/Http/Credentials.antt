-- ===== src/Clients/Http/Credentials.antt =====
-- addBasicAuthentication of src/clients/http.cpp: what is sent, and that it stays in its arrays.
use a76xx.Prelude.{
  ℕ, zero, suc, ◌≤◌, ◌≡◌, refl, ap, false, List, [], ◌∷◌, ◌++◌, arith, some, ltb, length, take,
  drop, copy_at, codes, length-append,
}
use a76xx.Base64.{encode_base64}
use a76xx.Base64.Null.{NoneZero, encode_base64-NoneZero}
use a76xx.Base64.Decode.{AllBytes, decode, decode-encode_base64}
use a76xx.Serial.{Text, ModemSerial, ◌>>=◌, pure}
use a76xx.Clients.{Session}
use a76xx.Clients.Http.{string_at, credentials_text, add_header, add_basic_authentication}

-- A string without a null character that is stored over an array is read with what stands behind.
string_at-copy_at :
    (memory text : List ℕ)
    → NoneZero text
    → length text ≤ length memory
    → string_at (copy_at memory 0 text) ≡ text ++ string_at (drop (length text) memory)
unfolding string_at
string_at-copy_at [] [] z h = refl
string_at-copy_at (m ∷ memory) [] z h = refl
string_at-copy_at [] (x ∷ text) z h = ground arith
string_at-copy_at (m ∷ memory) (x ∷ text) z h =
    rw (z.0) (ap (λ (r : List ℕ). x ∷ r) (string_at-copy_at memory text z.1 (omega arith)))

take_whole : (n : ℕ) (xs : List ℕ) → length xs ≤ n → take n xs ≡ xs
take_whole zero [] h = refl
take_whole zero (x ∷ xs) h = ground arith
take_whole (suc n) [] h = refl
take_whole (suc n) (x ∷ xs) h = ap (λ (r : List ℕ). x ∷ r) (take_whole n xs (omega arith))

module _ {S F : Type 0} (serial : ModemSerial S F) where
  -- With a user name and a password of up to 32 characters each, addBasicAuthentication writes only
  -- within its arrays, and sets the header "Authorization" to "Basic ", a text that decodes to the
  -- user name, a colon and the password, and the string that stands in the uninitialised memory
  -- behind that text, cut off at 94 characters.
  pub add_basic_authentication_lem :
      (memory : List ℕ) (username password : Text) (c : Session S)
      → length username ≤ 32
      → length password ≤ 32
      → 89 ≤ length memory
      → AllBytes (username ++ codes ":" ++ password)
      → let credentials = username ++ codes ":" ++ password in
        let encoded = encode_base64 credentials (length credentials) in
        let value = codes "Basic " ++ encoded ++ string_at (drop (length encoded) memory) in
        (add_basic_authentication serial memory username password c ≡ (
          (do
            added ← add_header serial (codes "Authorization") (credentials_text value)
            pure (some added))
            c))
        × (length encoded ≤ 88)
        × (decode encoded ≡ credentials)
  unfolding add_basic_authentication credentials_text
  add_basic_authentication_lem memory username password c hu hp hm a =
      let credentials = username ++ codes ":" ++ password in
      let encoded = encode_base64 credentials (length credentials) in
      let all = length-append (username ++ codes ":") password in
      let front = length-append username (codes ":") in
      let size : length credentials ≤ 65 = omega (arith, all, front) in
      let (text, len, _) = decode-encode_base64 credentials a in
      let fits : length encoded ≤ 88 = omega (arith, len) in
      let no : ltb 89 (length encoded) ≡ false = ground arith in
      (
        rw (
          take_whole 94 credentials (omega arith),
          no,
          string_at-copy_at memory encoded (encode_base64-NoneZero credentials a) (omega arith),
        ),
        fits,
        text,
      )
