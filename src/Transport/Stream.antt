-- ===== src/Transport/Stream.antt =====
-- The functions of Arduino's Stream and of the vendored CircularBuffer that
-- src/modem_serial_arduino.h calls, over unknown states, and what the transport relies on.
use a76xx.Prelude.{ℕ, ◌-◌, ◌^◌, ◌≤◌, ◌<◌, ◌≡◌, true, [], ◌∷◌, ◌++◌, length, drop, get_or, ltb, Bool}
use a76xx.Prelude.Int.{ℤ, pos}
use a76xx.Ring.{sub_size}
use a76xx.Serial.{Text, Item}

-- `millis` is the clock of the system, which the state carries too.
pub record Stream (U F : Type 0) : Type 0 where
  pub millis : U → ℕ × U
  pub set_timeout : ℕ → U → U
  pub available : U → ℕ × U
  pub print : Item → U → U
  pub parse_int : U → ℤ × U
  pub parse_float : U → F × U
  pub flush : U → U
  pub peek : U → ℤ × U
  pub read : U → ℤ × U
  pub find : ℕ → U → Bool × U
  pub write : Text → U → ℕ × U
  pub read_bytes_until : ℕ → ℤ → U → (ℕ × Text) × U
  pub read_bytes : ℤ → U → (ℕ × Text) × U

-- A byte that is available is the next one of the line, and read takes it.
pub record IsLawful {U F : Type 0} (stream : Stream U F) (incoming : U → Text) : Type 0 where
  pub millis_keeps : (u : U) → incoming (stream.millis u).1 ≡ incoming u
  pub available_keeps : (u : U) → incoming (stream.available u).1 ≡ incoming u
  pub reads :
      (u u' : U) (n : ℕ)
      → stream.available u ≡ (n, u')
      → 0 < n
      → (b : ℕ) × (b < 256)
        × ((stream.read u').0 ≡ pos b)
        × (incoming u' ≡ b ∷ incoming (stream.read u').1)

-- `elapsed` from `start` on, in `unsigned long`.
abbrev pub within : ℕ → ℕ → ℕ → Bool
within start timeout now = ltb (sub_size now start) timeout

-- The clock is an `unsigned long`, and time passes: a wait of `timeout` from `start` on is over after at most `patience` more looks at the
-- clock.
pub record IsTicking {U F : Type 0} (stream : Stream U F) (patience : ℕ → ℕ → U → ℕ) : Type 0 where
  pub bounded : (u : U) → (stream.millis u).0 < 2 ^ 32
  pub look :
      (start timeout : ℕ) (u : U)
      → start < 2 ^ 32
      → timeout < 2 ^ 32
      → within start timeout (stream.millis u).0 ≡ true
      → patience start timeout (stream.millis u).1 < patience start timeout u
  pub available_waits :
      (start timeout : ℕ) (u : U)
      → patience start timeout (stream.available u).1 ≤ patience start timeout u
  pub read_waits :
      (start timeout : ℕ) (u : U)
      → patience start timeout (stream.read u).1 ≤ patience start timeout u

-- CircularBuffer<char, 64>
pub record CircularBuffer (B : Type 0) : Type 0 where
  pub empty : B
  pub push : ℕ → B → B
  pub size : B → ℕ
  pub at : B → ℕ → ℕ

-- The last `n` bytes.
abbrev pub last_bytes : ℕ → Text → Text
last_bytes n xs = drop (length xs - n) xs

-- The buffer holds the last 64 bytes pushed, the oldest at index 0.
pub record IsCircular {B : Type 0} (buffer : CircularBuffer B) (held : B → Text) : Type 0 where
  pub held-empty : held buffer.empty ≡ []
  pub held-push : (b : ℕ) (d : B) → held (buffer.push b d) ≡ last_bytes 64 (held d ++ b ∷ [])
  pub size_lem : (d : B) → buffer.size d ≡ length (held d)
  pub at_lem : (d : B) (i : ℕ) → i < length (held d) → buffer.at d i ≡ get_or (held d) i 0
