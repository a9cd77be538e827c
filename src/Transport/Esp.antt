-- ===== src/Transport/Esp.antt =====
-- src/modem_serial_esp.h: ModemSerialESP, an implementation of the serial interface over the UART
-- driver. A loop is its body as a step function, run with fuel for every byte that it can still read.

pub mod Scan
pub mod Wait
pub mod Bytes
pub mod Print
pub mod Instance
mod Tests
pub mod Wire
pub mod Number
pub mod Dialog
pub mod Send
use a76xx.Prelude.{ℕ, suc, Bool, Option, none, some, List, [], ◌∷◌, length, ltb, if◌then◌else◌}
use a76xx.Prelude.Loop.{Step, loop, returned}
use a76xx.Ring.{ByteRingBuf, init, sub_size, write, clear, ends_with}
use a76xx.Serial.{Text, Response, response_ok, response_error}
use a76xx.Transport.Candidates.{Candidates}
use a76xx.Transport.Uart.{Uart, read_byte}

-- `_uart` stands for the state of the driver.
pub record ModemSerialEsp (U : Type 0) : Type 0 where
  pub uart : U
  pub buf : ByteRingBuf

-- The constructor: a ring of 200 bytes.
unfoldable pub modem_serial_esp : {U : Type 0} → U → ModemSerialEsp U
modem_serial_esp uart = record { uart = uart; buf = init 200 }

-- A loop over strings that takes the first one in which the bytes held end.
unfoldable pub first_match : {A : Type 0} → Candidates A → ByteRingBuf → Option A
first_match [] r = none
first_match ((str, a) ∷ more) r =
    let rest = first_match more r in if ends_with r str then some a else rest

-- `cmp_str` and `resp` of waitResponse.
unfoldable pub candidates :
    Option Text → Option Text → Option Text → Bool → Bool → Candidates Response
candidates match_1 match_2 match_3 match_ok match_error =
    (match_1, Response.match_1st)
    ∷ (match_2, Response.match_2nd)
    ∷ (match_3, Response.match_3rd)
    ∷ ((if match_ok then some response_ok else none), Response.ok)
    ∷ ((if match_error then some response_error else none), Response.error)
    ∷ []

-- The `process` of an event handler, which takes the transport.
abbrev pub Handler : Type 0 → Type 0
Handler U = ModemSerialEsp U → ModemSerialEsp U

-- `_buf.write(&val, 1)`
unfoldable pub push : ℕ → ByteRingBuf → ByteRingBuf
push b r = (write r (b ∷ []) 1).1

module _ {U : Type 0} where
  -- What a round of waitResponse does about the URCs: the first handler whose string ends the bytes
  -- held processes it.
  unfoldable pub process_event : Option (Handler U) → ModemSerialEsp U → ModemSerialEsp U
  process_event none s = s
  process_event (some process) s =
      let s' = process s in record { uart = s'.uart; buf = clear s'.buf }

  unfoldable pub after_match :
      Candidates (Handler U)
      → ModemSerialEsp U
      → Option Response
      → Step (ModemSerialEsp U) (Response × ModemSerialEsp U)
  unfolding process_event first_match
  after_match handlers s (some rsp) = Step.stop (rsp, record { uart = s.uart; buf = clear s.buf })
  after_match handlers s none = Step.again (process_event (first_match handlers s.buf) s)

  -- A byte has been asked for.
  unfoldable pub after_byte :
      Candidates Response
      → Candidates (Handler U)
      → ByteRingBuf
      → U
      → Option ℕ
      → Step (ModemSerialEsp U) (Response × ModemSerialEsp U)
  unfolding after_match push first_match
  after_byte targets handlers r u none =
      Step.stop (Response.timeout, record { uart = u; buf = clear r })
  after_byte targets handlers r u (some b) =
      let r' = push b r in
      after_match handlers (record { uart = u; buf = r' }) (first_match targets r')

module _ {U : Type 0} (driver : Uart U) where
  -- One round of the loop of waitResponse.
  unfoldable pub wait_round :
      Candidates Response
      → Candidates (Handler U)
      → ℕ
      → ℕ
      → ModemSerialEsp U
      → Step (ModemSerialEsp U) (Response × ModemSerialEsp U)
  unfolding after_byte
  wait_round targets handlers start_time timeout_ticks s =
      let (now, u) = driver.ticks s.uart in
      let elapsed_time = sub_size now start_time in
      let (val, u') = read_byte driver (sub_size timeout_ticks elapsed_time) u in
      if ltb timeout_ticks elapsed_time
      then Step.stop (Response.timeout, record { uart = u; buf = clear s.buf })
      else after_byte targets handlers s.buf u' val

  -- The fuel covers the bytes that the line still brings, of which every round but the last takes one.
  unfoldable pub wait_response :
      (U → Text)
      → Candidates (Handler U)
      → Option Text
      → Option Text
      → Option Text
      → ℕ
      → Bool
      → Bool
      → ModemSerialEsp U
      → Response × ModemSerialEsp U
  unfolding candidates returned loop wait_round
  wait_response incoming handlers match_1 match_2 match_3 millis match_ok match_error s =
      let (start_time, u) = driver.ticks s.uart in
      returned (Response.timeout, s)
        (loop
          (wait_round (candidates match_1 match_2 match_3 match_ok match_error) handlers start_time
            (driver.to_ticks millis))
          (suc (length (incoming u))) (record { uart = u; buf = s.buf }))
