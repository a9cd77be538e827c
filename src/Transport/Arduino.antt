-- ===== src/Transport/Arduino.antt =====
-- src/modem_serial_arduino.h: ModemSerialArduino, an implementation of the serial interface over
-- Arduino's Stream. The state is that of the stream; the loop of waitResponse is its body as a step
-- function.

pub mod Match
pub mod Scan
pub mod Wait
mod Tests
use a76xx.Prelude.{
  ℕ, zero, suc, ◌-◌, ◌==◌, ltb, leb, ◌&&◌, Bool, true, false, Option, none, some, List, [], ◌∷◌,
  length, get_or, if◌then◌else◌,
}
use a76xx.Prelude.Int.{uint8}
use a76xx.Prelude.Loop.{Step, loop, returned}
use a76xx.Serial.{Text, Response, ModemSerial, response_ok, response_error}
use a76xx.Transport.Candidates.{Candidates}
use a76xx.Transport.Stream.{Stream, CircularBuffer, within}

-- A76XX_SERIAL_TIMEOUT_DEFAULT
abbrev pub default_timeout : ℕ
default_timeout = 1000

-- The constructor sets the timeout of the stream.
unfoldable pub modem_serial_arduino : {U F : Type 0} → Stream U F → U → U
modem_serial_arduino stream u = stream.set_timeout default_timeout u

-- The handlers of the URCs: the string that each looks for, and its `process`.
abbrev pub Handlers : Type 0 → Type 0
Handlers E = List (Text × E)

-- The strings in the order of the tests of waitResponse.
unfoldable pub candidates :
    Option Text → Option Text → Option Text → Bool → Bool → Candidates Response
candidates match_1 match_2 match_3 match_ok match_error =
    (match_1, Response.match_1st)
    ∷ (match_2, Response.match_2nd)
    ∷ (match_3, Response.match_3rd)
    ∷ ((if match_error then some response_error else none), Response.error)
    ∷ ((if match_ok then some response_ok else none), Response.ok)
    ∷ []

module _ {B : Type 0} (buffer : CircularBuffer B) where
  -- The loop of endsWith from `i` on, with `left` more characters of the string.
  unfoldable pub ends_loop : B → Text → ℕ → ℕ → Bool
  ends_loop buf str i zero = true
  ends_loop buf str i (suc left) =
      let rest = ends_loop buf str (suc i) left in
      if leb i (buffer.size buf) && leb i (length str)
      then (if buffer.at buf (buffer.size buf - i) == get_or str (length str - i) 0
          then rest
          else false)
      else true

  unfoldable pub ends_with : B → Text → Bool
  unfolding ends_loop
  ends_with buf str =
      if ltb (buffer.size buf) (length str) then false else ends_loop buf str 1 (length str)

  -- `match_1 != NULL && endsWith(data, match_1)` and what is returned, for one string after another.
  unfoldable pub first_match : {A : Type 0} → Candidates A → B → Option A
  unfolding ends_with
  first_match [] d = none
  first_match ((none, a) ∷ more) d = first_match more d
  first_match ((some str, a) ∷ more) d =
      let rest = first_match more d in if ends_with d str then some a else rest

  -- The loop over the event handlers.
  unfoldable pub process_events : {U : Type 0} → Handlers (U → U) → B → U → U
  unfolding ends_with
  process_events [] d u = u
  process_events ((match_string, process) ∷ more) d u =
      process_events more d (if ends_with d match_string then process u else u)

  unfoldable pub after_match : {U : Type 0} → U → B → Option Response → Step (U × B) (Response × U)
  after_match u d (some rsp) = Step.stop (rsp, u)
  after_match u d none = Step.again (u, d)

  -- A round of waitResponse that has pushed a character; the state is that of the stream and `data`.
  unfoldable pub after_char :
      {U : Type 0} → Candidates Response → Handlers (U → U) → U → B → Step (U × B) (Response × U)
  unfolding process_events first_match after_match
  after_char targets handlers u d =
      after_match (process_events handlers d u) d (first_match targets d)

  module _ {U F : Type 0} (stream : Stream U F) where
    unfoldable pub wait_round :
        Candidates Response → Handlers (U → U) → ℕ → ℕ → U × B → Step (U × B) (Response × U)
    unfolding after_char
    wait_round targets handlers tstart timeout (u, d) =
        let (now, u1) = stream.millis u in
        let (n, u2) = stream.available u1 in
        let (c, u3) = stream.read u2 in
        if within tstart timeout now
        then (if ltb 0 n
            then after_char targets handlers u3 (buffer.push (uint8 c) d)
            else Step.again (u2, d))
        else Step.stop (Response.timeout, u1)

    -- The fuel covers the looks at the clock before the wait is over.
    unfoldable pub wait_response :
        (ℕ → ℕ → U → ℕ)
        → Handlers (U → U)
        → Option Text
        → Option Text
        → Option Text
        → ℕ
        → Bool
        → Bool
        → U
        → Response × U
    unfolding candidates returned loop wait_round
    wait_response patience handlers match_1 match_2 match_3 timeout match_ok match_error u =
        let (tstart, u') = stream.millis u in
        returned (Response.timeout, u)
          (loop
            (wait_round (candidates match_1 match_2 match_3 match_ok match_error) handlers tstart
              timeout)
            (suc (patience tstart timeout u')) (u', buffer.empty))

    -- The other functions forward the calls; what is printed is flushed.
    unfoldable pub arduino_serial : (ℕ → ℕ → U → ℕ) → Handlers (U → U) → ModemSerial U F
    arduino_serial patience handlers = record {
      wait_response = wait_response patience handlers;
      print_item = λ item u. stream.flush (stream.print item u);
      available = stream.available;
      parse_int = stream.parse_int;
      parse_float = stream.parse_float;
      flush = stream.flush;
      peek = stream.peek;
      read = stream.read;
      find = stream.find;
      write = stream.write;
      read_bytes_until = stream.read_bytes_until;
      read_bytes = stream.read_bytes;
    }
