-- ===== src/Commands/Http/Bounds.antt =====
-- The buffers of src/commands/http.h and src/clients/http.cpp.
use a76xx.Prelude.{
  ℕ, ◌-◌, ◌%◌, ◌^◌, ◌<◌, ◌≤◌, ltb, if◌then◌else◌, none, some, length, ◌≡◌, inl, inr, Bool-cases,
  arith,
}
use a76xx.Prelude.Int.{ℤ, pos, negsuc, int32, uint32}
use a76xx.Serial.{Text, Response, ModemSerial, pure, out_of_memory}
use a76xx.Commands.Http.{read_header, header_switch, header_fits, header_text}

-- A number of 32 bits that is not below 0 is its own unsigned value; one below 0 has a large one.
unfoldable Word : ℤ → Type 0
Word (pos n) = n < 2 ^ 31
Word (negsuc n) = 2 ^ 31 ≤ uint32 (negsuc n)

word : (u : ℕ) → u < 2 ^ 32 → Word (if ltb u (2 ^ 31) then pos u else negsuc (2 ^ 32 - 1 - u))
unfolding Word
word u h = elim (Bool-cases (ltb u (2 ^ 31))) [
  | inl below ↦ rw below (ground arith)
  | inr above ↦ rw above (ground arith)
]

int32-Word : (z : ℤ) → Word (int32 z)
int32-Word (pos n) = word (n % 2 ^ 32) (omega arith)
int32-Word (negsuc n) = word (2 ^ 32 - 1 - n % 2 ^ 32) (omega arith)

-- `stores`: `readBytes` stores at most the number of bytes that it is asked for.
module _ {S F : Type 0} (serial : ModemSerial S F)
    (stores : (n : ℕ) (s : S) → length (serial.read_bytes (pos n) s).0.1 ≤ n) where
  text_bound :
      (max_len : ℕ) (z : ℤ) (s : S) (text : Text)
      → 0 < max_len
      → max_len < 2 ^ 31
      → Word z
      → ((if header_fits serial max_len z then header_text serial z else pure (out_of_memory, none))
          s).0.1
        ≡ some text
      → length text < max_len
  unfolding header_text header_fits Word
  text_bound max_len (pos n) s text h small word e =
      elim (Bool-cases (header_fits serial max_len (pos n))) [
        | inl fits ↦
            let le = stores n (serial.find b'\n' s).1 in
            let eq = rw fits at e in let bound : n < max_len = ground arith in ground (arith, le)
        | inr over ↦ let eq = rw over at e in ground arith
      ]
  text_bound max_len (negsuc n) s text h small word e =
      elim (Bool-cases (header_fits serial max_len (negsuc n))) [
        | inl fits ↦ absurd (ground arith)
        | inr over ↦ let eq = rw over at e in ground arith
      ]

  switch_bound :
      (max_len : ℕ) (rsp : Response) (s : S) (text : Text)
      → 0 < max_len
      → max_len < 2 ^ 31
      → (header_switch serial max_len rsp s).0.1 ≡ some text
      → length text < max_len
  unfolding header_switch header_text header_fits Word
  switch_bound max_len Response.match_1st s text h small e =
      let (z, s') = serial.parse_int s in
      text_bound max_len (int32 z) s' text h small (int32-Word z) e
  switch_bound max_len Response.timeout s text h small e = ground arith
  switch_bound max_len Response.ok s text h small e = ground arith
  switch_bound max_len Response.match_2nd s text h small e = ground arith
  switch_bound max_len Response.match_3rd s text h small e = ground arith
  switch_bound max_len Response.error s text h small e = ground arith

  -- A header that readHeader stores, for a buffer of `max_len` bytes that is not empty, leaves room
  -- for the null character, whatever length the module announces.
  pub read_header_bound :
      (max_len : ℕ) (s : S) (text : Text)
      → 0 < max_len
      → max_len < 2 ^ 31
      → (read_header serial max_len s).0.1 ≡ some text
      → length text < max_len
  unfolding read_header
  read_header_bound max_len s text h small e = switch_bound max_len _ _ text h small e
