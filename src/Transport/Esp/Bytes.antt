-- ===== src/Transport/Esp/Bytes.antt =====
-- src/modem_serial_esp.h: the functions that pass bytes on, first those of the ring, then those of
-- the UART.

pub mod Stream
pub mod Reads
pub mod Block
use a76xx.Prelude.{
  ℕ, suc, ◌+◌, Bool, true, false, Option, none, some, [], ◌∷◌, ◌++◌, length, ltb, ◌==◌, ◌-◌, ◌%◌,
  ◌^◌, ◌&&◌, ◌⊎◌, inl, inr, get_or, if◌then◌else◌,
}
use a76xx.Prelude.Int.{ℤ, pos, negsuc, uint32}
use a76xx.Prelude.Loop.{Step, loop, returned}
use a76xx.Ring.{get_used, size_mod, sub_size, add_size, read, peek, pop}
use a76xx.Serial.{Text}
use a76xx.Transport.Uart.{Uart, read_byte}
use a76xx.Transport.Esp.{ModemSerialEsp, push}

-- A76XX_SERIAL_TIMEOUT_DEFAULT, in milliseconds.
abbrev pub default_timeout : ℕ
default_timeout = 1000

-- What comes of a byte, when there is one.
unfoldable pub on_byte : {A : Type 0} → Option ℕ → A → (ℕ → A) → A
on_byte none a f = a
on_byte (some b) a f = f b

-- The count that `uart_read_bytes` returns, as a `size_t`, and the bytes that it stores.
unfoldable pub bytes_read : Option Text → ℕ
bytes_read none = size_mod - 1
bytes_read (some bytes) = length bytes

unfoldable pub bytes_stored : Option Text → Text
bytes_stored none = []
bytes_stored (some bytes) = bytes

module _ {U : Type 0} (driver : Uart U) where
  unfoldable pub flush : ModemSerialEsp U → ModemSerialEsp U
  flush s = record s { uart = driver.wait_tx_done (driver.to_ticks default_timeout) s.uart }

  unfoldable pub write : Text → ModemSerialEsp U → ℕ × ModemSerialEsp U
  write text s = let (n, u) = driver.write_bytes text s.uart in (n, record s { uart = u })

  -- The sum is an `int`, which holds the sizes of both buffers.
  unfoldable pub available : ModemSerialEsp U → ℕ × ModemSerialEsp U
  available s =
      let (len, u) = driver.buffered_data_len s.uart in
      let avail_bytes = on_byte len 0 (λ n. n) in
      (avail_bytes + get_used s.buf, record s { uart = u })

  unfoldable pub peek_byte : ModemSerialEsp U → ℤ × ModemSerialEsp U
  unfolding on_byte push
  peek_byte s =
      let (val, u) = read_byte driver 0 s.uart in
      on_byte (peek s.buf)
        (on_byte val (negsuc 0, record s { uart = u })
          (λ b. (pos b, record { uart = u; buf = push b s.buf })))
        (λ b. (pos b, s))

  -- The end of `read`, with what the ring gave.
  unfoldable pub read_uart : ModemSerialEsp U → ℤ × ModemSerialEsp U
  unfolding on_byte
  read_uart s =
      let (val, u) = read_byte driver 0 s.uart in
      (on_byte val (negsuc 0) pos, record s { uart = u })

  unfoldable pub read_char : ModemSerialEsp U → ℤ × ModemSerialEsp U
  unfolding read_uart
  read_char s =
      let (n, bytes, r) = read s.buf 1 in
      if ltb 0 (get_used s.buf)
      then (if n == 1
          then (pos (get_or bytes 0 0), record s { buf = r })
          else read_uart (record s { buf = r }))
      else read_uart s

  -- `len` is an `int`, converted to the `uint16_t` of `_buf.read`; a result -1 of the driver is
  -- converted to `size_t`.
  unfoldable pub read_bytes : ℤ → ModemSerialEsp U → (ℕ × Text) × ModemSerialEsp U
  unfolding bytes_read bytes_stored
  read_bytes len s =
      let size = uint32 len in
      let (n, bytes, r) = read s.buf (size % 2 ^ 16) in
      let some_data = ltb 0 (get_used s.buf) in
      let read_len = if some_data then n else 0 in
      let stored = if some_data then bytes else [] in
      let r' = if some_data then r else s.buf in
      let (more, u) =
        driver.read_bytes (sub_size size read_len) (driver.to_ticks default_timeout) s.uart in
      if some_data && (n == size) then ((n, bytes), record s { buf = r }) else (
        (add_size read_len (bytes_read more), stored ++ bytes_stored more),
        record { uart = u; buf = r' },
      )

-- The two `while` loops of `find` and `readBytesUntil`: one takes bytes from the ring, the other from
-- the UART. `body` is what they do with a byte: it goes on, or returns.
module _ {U X A : Type 0} where
  -- A byte asked for has come, or not.
  unfoldable pub took :
      (ℕ → X → X ⊎ A)
      → X
      → ModemSerialEsp U
      → Option ℕ
      → Step (X × ModemSerialEsp U) ((X ⊎ A) × ModemSerialEsp U)
  took body x s none = Step.stop (inl x, s)
  took body x s (some b) = elim (body b x) [
    | inl x' ↦ Step.again (x', s)
    | inr a ↦ Step.stop (inr a, s)
  ]

  unfoldable pub ring_round :
      (ℕ → X → X ⊎ A)
      → X × ModemSerialEsp U
      → Step (X × ModemSerialEsp U) ((X ⊎ A) × ModemSerialEsp U)
  unfolding took
  ring_round body (x, s) = let (val, r) = pop s.buf in took body x (record s { buf = r }) val

  unfoldable pub uart_round :
      Uart U
      → (ℕ → X → X ⊎ A)
      → X × ModemSerialEsp U
      → Step (X × ModemSerialEsp U) ((X ⊎ A) × ModemSerialEsp U)
  unfolding took
  uart_round driver body (x, s) =
      let (val, u) = read_byte driver (driver.to_ticks default_timeout) s.uart in
      took body x (record s { uart = u }) val

  -- The second loop runs unless the first returned.
  unfoldable pub then_uart :
      Uart U
      → (U → Text)
      → (ℕ → X → X ⊎ A)
      → (X ⊎ A) × ModemSerialEsp U
      → (X ⊎ A) × ModemSerialEsp U
  unfolding uart_round loop returned
  then_uart driver incoming body (inl x, s) =
      returned (inl x, s) (loop (uart_round driver body) (suc (length (incoming s.uart))) (x, s))
  then_uart driver incoming body (inr a, s) = (inr a, s)

  unfoldable pub each_byte :
      Uart U → (U → Text) → (ℕ → X → X ⊎ A) → X → ModemSerialEsp U → (X ⊎ A) × ModemSerialEsp U
  unfolding ring_round loop returned then_uart
  each_byte driver incoming body x s =
      then_uart driver incoming body
        (returned (inl x, s) (loop (ring_round body) (suc (get_used s.buf)) (x, s)))

-- The body of the loops of `find`.
unfoldable pub is_terminator : ℕ → ℕ → Unit {0} → Unit {0} ⊎ Bool
is_terminator terminator val x = if val == terminator then inr true else inl x

-- The body of the loops of `readBytesUntil`, with the bytes stored so far.
unfoldable pub store_until : ℕ → ℕ → ℕ → Text → Text ⊎ (ℕ × Text)
store_until terminator size val stored =
    let stored' = stored ++ val ∷ [] in
    if val == terminator
    then inr (length stored, stored)
    else if length stored' == size
    then inr (size, stored')
    else inl stored'

-- What `readBytesUntil` returns and has stored; on a timeout it returns 0.
unfoldable pub until_result : Text ⊎ (ℕ × Text) → ℕ × Text
until_result (inl stored) = (0, stored)
until_result (inr result) = result

module _ {U : Type 0} (driver : Uart U) (incoming : U → Text) where
  unfoldable pub find : ℕ → ModemSerialEsp U → Bool × ModemSerialEsp U
  unfolding each_byte is_terminator
  find terminator s =
      let (outcome, s') = each_byte driver incoming (is_terminator terminator) tt s in
      (elim outcome [ inl x ↦ false | inr found ↦ found ], s')

  unfoldable pub read_bytes_until : ℕ → ℤ → ModemSerialEsp U → (ℕ × Text) × ModemSerialEsp U
  unfolding each_byte store_until until_result
  read_bytes_until terminator len s =
      let (outcome, s') = each_byte driver incoming (store_until terminator (uint32 len)) [] s in
      (until_result outcome, s')
