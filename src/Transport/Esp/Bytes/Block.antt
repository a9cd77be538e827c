-- ===== src/Transport/Esp/Bytes/Block.antt =====
-- readBytes of src/modem_serial_esp.h: the ring's bytes first, then those of the UART.
use a76xx.Prelude.{ℕ, ◌+◌, ◌-◌, ◌%◌, ◌^◌, ◌≤◌, ◌≡◌, ◌⊎◌, none, [], ◌++◌, length}
use a76xx.Ring.Contents.{contents}
use a76xx.Serial.{Text}
use a76xx.Transport.Uart.{Uart}
use a76xx.Transport.Esp.{ModemSerialEsp}
use a76xx.Transport.Esp.Scan.{IsReady}
use a76xx.Transport.Esp.Bytes.{read_bytes, bytes_stored, default_timeout}
use a76xx.Transport.Esp.Bytes.Stream.{view}

-- The ring's bytes were enough, and the driver has not been asked. Or the ring is empty, and behind its
-- bytes stands what the driver gave when it was asked once for the rest; the count is one less than
-- the bytes stored, as a `size_t`, if this was an error.
abbrev pub Filled :
    {U : Type 0} → Uart U → ℕ → ModemSerialEsp U → (ℕ × Text) × ModemSerialEsp U → Type 0
Filled driver size s ((n, stored), s') =
    ((length stored ≡ size) × (n ≡ size) × (s'.uart ≡ s.uart))
    ⊎ (let (more, u) =
          driver.read_bytes (size - length (contents s.buf)) (driver.to_ticks default_timeout)
            s.uart in
        (stored ≡ contents s.buf ++ bytes_stored more)
        × (s'.uart ≡ u)
        × (contents s'.buf ≡ [])
        × ((n ≡ length stored) ⊎ ((more ≡ none) × (n ≡ (length stored + 2 ^ 32 - 1) % 2 ^ 32))))

-- The bytes stored are the front of the text still to be read, at most `size` of them.
pub record Block {U : Type 0} (driver : Uart U) (incoming : U → Text) (size : ℕ)
    (s : ModemSerialEsp U) (result : (ℕ × Text) × ModemSerialEsp U) : Type 0 where
  pub split : view incoming s ≡ result.0.1 ++ view incoming result.1
  pub room : length result.0.1 ≤ size
  pub filled : Filled driver size s result
  pub ready : IsReady result.1.buf
