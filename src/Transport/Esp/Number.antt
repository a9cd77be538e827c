-- ===== src/Transport/Esp/Number.antt =====
-- src/modem_serial_esp.h: parseInt and parseFloat, one program over two sets of characters. They use
-- the ring, emptied first, to collect the characters of the number.
pub mod Automaton
pub mod Evaluate
pub mod Parse
pub mod Decimal
pub mod Line
use a76xx.Prelude.{
  ℕ, zero, suc, ◌+◌, ◌-◌, ◌*◌, ◌^◌, Bool, true, false, ◌&&◌, ◌||◌, Option, none, some, [], ◌∷◌,
  length, take, min, ltb, leb, ◌==◌, if◌then◌else◌, codes,
}
use a76xx.Prelude.Int.{ℤ, pos, negsuc}
use a76xx.Prelude.Loop.{Step, loop, returned}
use a76xx.Ring.{ByteRingBuf, sub_size, read, clear}
use a76xx.Serial.{Text}
use a76xx.Transport.Uart.{Uart, read_byte}
use a76xx.Transport.Esp.{ModemSerialEsp, push}
use a76xx.Transport.Esp.Bytes.{default_timeout}

-- `strchr` of the C library as a test: it finds the terminating null character too.
unfoldable pub strchr : Text → ℕ → Bool
strchr [] c = c == 0
strchr (x ∷ str) c = let rest = strchr str c in if x == c then true else rest

abbrev pub is_digit : ℕ → Bool
is_digit c = leb 48 c && leb c 57

abbrev pub is_space : ℕ → Bool
is_space c = (c == 32) || (leb 9 c && leb c 13)

-- The digits at the front of a text, behind the value `acc` of those before.
unfoldable pub digits_value : ℕ → Text → ℕ
digits_value acc [] = acc
digits_value acc (c ∷ str) =
    let rest = digits_value (acc * 10 + (c - 48)) str in if is_digit c then rest else acc

-- A `long` of 32 bits, of a magnitude that is cut to what it holds.
unfoldable pub to_long : Bool → ℕ → ℤ
to_long false n = pos (min n (2 ^ 31 - 1))
to_long true zero = pos 0
to_long true (suc n) = negsuc (min n (2 ^ 31 - 1))

unfoldable pub strtol_sign : Text → ℤ
unfolding to_long digits_value
strtol_sign [] = pos 0
strtol_sign (c ∷ str) =
    if c == b'-'
    then to_long true (digits_value 0 str)
    else if c == b'+'
    then to_long false (digits_value 0 str)
    else to_long false (digits_value 0 (c ∷ str))

-- `strtol(str, NULL, 10)` of the C library.
unfoldable pub strtol : Text → ℤ
unfolding strtol_sign
strtol [] = pos 0
strtol (c ∷ str) = let rest = strtol str in if is_space c then rest else strtol_sign (c ∷ str)

-- What the two functions differ in: `validChars` at the start, what becomes of it behind a valid
-- character (the first one, or a later one), the value of the text collected, and zero.
pub record NumberFormat (N : Type 0) : Type 0 where
  pub valid_chars : Text
  pub narrow : Bool → ℕ → Text → Text
  pub value : Text → N
  pub nothing : N

-- `validChars[10] = '\0'` behind the first character of the number.
unfoldable pub narrow_int : Bool → ℕ → Text → Text
narrow_int false val chars = take 10 chars
narrow_int true val chars = chars

-- A dot allows digits only from then on, and a first character that is no dot a digit or a dot.
unfoldable pub narrow_float : Bool → ℕ → Text → Text
narrow_float false val chars = if val == b'.' then take 10 chars else take 11 chars
narrow_float true val chars = if val == b'.' then take 10 chars else chars

unfoldable pub int_format : NumberFormat ℤ
unfolding narrow_int strtol
int_format = record {
  valid_chars = codes "0123456789-";
  narrow = narrow_int;
  value = strtol;
  nothing = pos 0;
}

-- `strtof` is a parameter.
unfoldable pub float_format : {F : Type 0} → (Text → F) → F → NumberFormat F
unfolding narrow_float
float_format strtof zero_f = record {
  valid_chars = codes "0123456789.-";
  narrow = narrow_float;
  value = strtof;
  nothing = zero_f;
}

-- The variables of the loop.
pub record Parser (U : Type 0) : Type 0 where
  pub valid_number : Bool
  pub valid_chars : Text
  pub serial : ModemSerialEsp U

module _ {U N : Type 0} (format : NumberFormat N) where
  -- The number is over: by a timeout, or by a character that is put back into the ring.
  unfoldable pub evaluate : ByteRingBuf → U → Option ℕ → Step (Parser U) (N × ModemSerialEsp U)
  unfolding push
  evaluate buf u none =
      let (number_len, number_buf, r) = read buf 20 in
      if number_len == 20
      then Step.stop (format.nothing, record { uart = u; buf = clear r })
      else Step.stop (format.value number_buf, record { uart = u; buf = r })
  evaluate buf u (some val) =
      let (number_len, number_buf, r) = read buf 20 in
      if number_len == 20
      then Step.stop (format.nothing, record { uart = u; buf = push val (clear r) })
      else Step.stop (format.value number_buf, record { uart = u; buf = push val r })

  -- A byte has been asked for.
  unfoldable pub parse_byte :
      Bool → Text → ByteRingBuf → U → Option ℕ → Step (Parser U) (N × ModemSerialEsp U)
  unfolding evaluate push strchr
  parse_byte true chars buf u none = evaluate buf u none
  parse_byte false chars buf u none = Step.stop (format.nothing, record { uart = u; buf = buf })
  parse_byte valid_number chars buf u (some val) =
      if strchr chars val
      then Step.again record {
        valid_number = true;
        valid_chars = format.narrow valid_number val chars;
        serial = record { uart = u; buf = push val buf };
      }
      else if valid_number
      then evaluate buf u (some val)
      else Step.again record {
        valid_number = false;
        valid_chars = chars;
        serial = record { uart = u; buf = buf };
      }

  unfoldable pub parse_round : Uart U → ℕ → ℕ → Parser U → Step (Parser U) (N × ModemSerialEsp U)
  unfolding parse_byte
  parse_round driver start_time timeout_ticks p =
      let (now, u) = driver.ticks p.serial.uart in
      let elapsed_time = sub_size now start_time in
      let (val, u') = read_byte driver (sub_size timeout_ticks elapsed_time) u in
      if ltb timeout_ticks elapsed_time
      then Step.stop (format.nothing, record { uart = u; buf = clear p.serial.buf })
      else parse_byte p.valid_number p.valid_chars p.serial.buf u' val

  unfoldable pub parse_number : Uart U → (U → Text) → ModemSerialEsp U → N × ModemSerialEsp U
  unfolding returned loop parse_round
  parse_number driver incoming s =
      let (start_time, u) = driver.ticks s.uart in
      returned (format.nothing, s)
        (loop (parse_round driver start_time (driver.to_ticks default_timeout))
          (suc (length (incoming u)))
          record {
            valid_number = false;
            valid_chars = format.valid_chars;
            serial = record { uart = u; buf = clear s.buf };
          })

unfoldable pub parse_int :
    {U : Type 0} → Uart U → (U → Text) → ModemSerialEsp U → ℤ × ModemSerialEsp U
unfolding parse_number int_format
parse_int driver incoming s = parse_number int_format driver incoming s

unfoldable pub parse_float :
    {U F : Type 0} → (Text → F) → F → Uart U → (U → Text) → ModemSerialEsp U → F × ModemSerialEsp U
unfolding parse_number float_format
parse_float strtof zero_f driver incoming s =
    parse_number (float_format strtof zero_f) driver incoming s
