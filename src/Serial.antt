-- ===== src/Serial.antt =====
-- src/modem_serial.h and the codes of src/A76XX.h: the serial interface that every command is
-- written over, as a record of operations on a state `S`. Commands take it as a parameter; the
-- transports are its implementations. `F` is the type of floating point numbers.
pub mod Handlers
pub mod Script
use Prim.Native.String.{String}
use a76xx.Prelude.{ℕ, if◌then◌else◌, Bool, true, false, Option, none, some, List, [], ◌∷◌, codes}
use a76xx.Prelude.Int.{ℤ, pos, negsuc, int8}

abbrev pub Text : Type 0
Text = List ℕ

-- Response_t
pub data Response : Type 0 where
  ok match_1st match_2nd match_3rd error timeout : Response

-- One argument of sendCMD, by the overload of printItem that takes it: an `uint8_t`, an `int8_t`
-- and a `bool` are promoted to `int`.
pub data Item : Type 0 where
  str : Text → Item
  chr : ℕ → Item
  int : ℤ → Item
  u16 : ℕ → Item
  unsigned_int : ℕ → Item

-- The virtual functions. A transport that reads returns what it stored: `read_bytes` gives the
-- count returned and the bytes, and so does `read_bytes_until`. A missing string is a null pointer.
pub record ModemSerial (S F : Type 0) : Type 0 where
  pub wait_response : Option Text → Option Text → Option Text → ℕ → Bool → Bool → S → Response × S
  pub print_item : Item → S → S
  pub available : S → ℕ × S
  pub parse_int : S → ℤ × S
  pub parse_float : S → F × S
  pub flush : S → S
  pub peek : S → ℤ × S
  pub read : S → ℤ × S
  pub find : ℕ → S → Bool × S
  pub write : Text → S → ℕ × S
  pub read_bytes_until : ℕ → ℤ → S → (ℕ × Text) × S
  pub read_bytes : ℤ → S → (ℕ × Text) × S

-- An AT command works on the state of the transport.
abbrev pub Cmd : Type 0 → Type 0 → Type 0
Cmd S A = S → A × S

infixl 10 ◌>>=◌ ◌>>◌
abbrev pub ◌>>=◌ : {S A B : Type 0} → Cmd S A → (A → Cmd S B) → Cmd S B
◌>>=◌ m f s = let (a, s') = m s in f a s'

abbrev pub ◌>>◌ : {S A B : Type 0} → Cmd S A → Cmd S B → Cmd S B
◌>>◌ m f s = let (a, s') = m s in f s'

abbrev pub pure : {S A : Type 0} → A → Cmd S A
pure a s = (a, s)

-- Error codes of A76XX.h.
abbrev pub succeeded : ℤ
succeeded = pos 0

abbrev pub timed_out : ℤ
timed_out = negsuc 0

abbrev pub generic_error : ℤ
generic_error = negsuc 1

abbrev pub out_of_memory : ℤ
out_of_memory = negsuc 2

abbrev pub mqtt_already_stopped : ℤ
mqtt_already_stopped = negsuc 3

abbrev pub mqtt_already_started : ℤ
mqtt_already_started = negsuc 4

abbrev pub sim_pin_required : ℤ
sim_pin_required = negsuc 5

abbrev pub sim_pin_modem_error : ℤ
sim_pin_modem_error = negsuc 6

abbrev pub gnss_not_ready : ℤ
gnss_not_ready = negsuc 7

abbrev pub gnss_generic_error : ℤ
gnss_generic_error = negsuc 8

-- A76XX_RESPONSE_PROCESS
unfoldable pub response_process : Response → ℤ
response_process Response.ok = succeeded
response_process Response.timeout = timed_out
response_process Response.error = generic_error
response_process _ = generic_error

-- The enumerators of Response_t as numbers, which a function that returns one as `int8_t` shows.
unfoldable pub response_number : Response → ℤ
response_number Response.ok = pos 0
response_number Response.match_1st = pos 1
response_number Response.match_2nd = pos 2
response_number Response.match_3rd = pos 3
response_number Response.error = pos 4
response_number Response.timeout = pos 5

abbrev pub response_ok : Text
response_ok = 79 ∷ 75 ∷ 13 ∷ 10 ∷ []

abbrev pub response_error : Text
response_error = 69 ∷ 82 ∷ 82 ∷ 79 ∷ 82 ∷ 13 ∷ 10 ∷ []

abbrev pub crlf : Item
crlf = Item.str (13 ∷ 10 ∷ [])

abbrev pub txt : String → Item
txt s = Item.str (codes s)

abbrev pub comma : Item
comma = txt ","

-- An `uint8_t` argument.
abbrev pub num : ℕ → Item
num n = Item.int (pos n)

-- The argument `b ? "1" : "0"`.
abbrev pub flag : Bool → Item
flag b = if b then txt "1" else txt "0"

module _ {S F : Type 0} (serial : ModemSerial S F) where
  -- printCMD
  unfoldable pub print_cmd : List Item → S → S
  print_cmd [] s = s
  print_cmd (item ∷ items) s = print_cmd items (serial.print_item item s)

  -- sendCMD
  unfoldable pub send_cmd : List Item → Cmd S Unit
  unfolding print_cmd
  send_cmd items s = (tt, serial.print_item crlf (print_cmd items s))

  unfoldable pub print : List Item → Cmd S Unit
  unfolding print_cmd
  print items s = (tt, print_cmd items s)

  -- The overloads of waitResponse with two, one and no string.
  abbrev pub wait_2 : Text → Text → ℕ → Bool → Bool → Cmd S Response
  wait_2 a b millis match_ok match_error =
      serial.wait_response (some a) (some b) none millis match_ok match_error

  abbrev pub wait_1 : Text → ℕ → Bool → Bool → Cmd S Response
  wait_1 a millis match_ok match_error =
      serial.wait_response (some a) none none millis match_ok match_error

  abbrev pub wait_0 : ℕ → Bool → Bool → Cmd S Response
  wait_0 millis match_ok match_error =
      serial.wait_response none none none millis match_ok match_error

  -- The call with no argument.
  abbrev pub wait_ok : Cmd S Response
  wait_ok = wait_0 1000 true true

  abbrev pub flushed : Cmd S Unit
  flushed s = (tt, serial.flush s)

  unfoldable pub clear : ℕ → Cmd S Response
  clear millis = wait_0 millis true true

  -- parseIntClear; the callers that return it convert it to `int8_t`.
  unfoldable pub parse_int_clear : Cmd S ℤ
  unfolding clear
  parse_int_clear = do code ← serial.parse_int; clear 500; pure code

  unfoldable pub listen : ℕ → Cmd S Response
  listen millis = wait_0 millis false false

  -- A76XX_RESPONSE_PROCESS on a response waited for.
  unfoldable pub process : Cmd S Response → Cmd S ℤ
  unfolding response_process
  process wait = do rsp ← wait; pure (response_process rsp)

  -- The switch of the commands that read an answer: what is read behind the match, the timeout, and
  -- the default.
  unfoldable pub on_match : Cmd S ℤ → Response → Cmd S ℤ
  on_match matched Response.match_1st = matched
  on_match matched Response.timeout = pure timed_out
  on_match matched _ = pure generic_error

  -- `return _serial.parseIntClear()` of a function that returns an `int8_t`.
  unfoldable pub return_code : Cmd S ℤ
  unfolding parse_int_clear
  return_code = do code ← parse_int_clear; pure (int8 code)

  -- The same behind `find(',')`.
  unfoldable pub second_code : Cmd S ℤ
  unfolding return_code
  second_code = do serial.find b','; return_code

  -- The end of the commands that write a text behind a prompt.
  unfoldable pub write_text : Text → Cmd S ℤ
  write_text text = do
    serial.write text
    flushed
    rsp ← wait_ok
    pure (elim rsp [ Response.ok ↦ succeeded | _ ↦ generic_error ])
