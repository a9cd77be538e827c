-- ===== src/Transport/Uart.antt =====
-- The functions of the UART driver and of the operating system that src/modem_serial_esp.h calls,
-- over an unknown state, and what the transport relies on: the driver hands out what the line
-- receives once and in order, and sending and the clock do not touch it.
use a76xx.Prelude.{
  ℕ, ◌<◌, ◌≤◌, ◌≡◌, refl, Option, none, some, [], ◌∷◌, ◌++◌, length, inl, inr, ◌⊎◌, arith,
}
use a76xx.Ring.{sub_size}
use a76xx.Serial.{Text}

pub record Uart (U : Type 0) : Type 0 where
  -- xTaskGetTickCount and pdMS_TO_TICKS
  pub ticks : U → ℕ × U
  pub to_ticks : ℕ → ℕ
  -- uart_read_bytes: how many bytes, how many ticks; `none` is the result -1.
  pub read_bytes : ℕ → ℕ → U → Option Text × U
  -- uart_write_bytes, uart_wait_tx_done and uart_get_buffered_data_len; `none` is an error.
  pub write_bytes : Text → U → ℕ × U
  pub wait_tx_done : ℕ → U → U
  pub buffered_data_len : U → Option ℕ × U

pub record IsLawful {U : Type 0} (driver : Uart U) (incoming : U → Text) : Type 0 where
  pub read_some :
      (n wait : ℕ) (u u' : U) (bytes : Text)
      → driver.read_bytes n wait u ≡ (some bytes, u')
      → (incoming u ≡ bytes ++ incoming u') × (length bytes ≤ n)
  pub read_none :
      (n wait : ℕ) (u u' : U) → driver.read_bytes n wait u ≡ (none, u') → incoming u ≡ incoming u'
  pub ticks_keep : (u : U) → incoming (driver.ticks u).1 ≡ incoming u
  pub write_keeps : (text : Text) (u : U) → incoming (driver.write_bytes text u).1 ≡ incoming u
  pub wait_keeps : (wait : ℕ) (u : U) → incoming (driver.wait_tx_done wait u) ≡ incoming u
  pub len_keeps : (u : U) → incoming (driver.buffered_data_len u).1 ≡ incoming u

-- The byte that `uart_read_bytes(_uart, &val, 1, wait)` stores, when it returns 1.
unfoldable pub first_byte : Option Text → Option ℕ
first_byte none = none
first_byte (some []) = none
first_byte (some (b ∷ bytes)) = some b

module _ {U : Type 0} (driver : Uart U) where
  unfoldable pub read_byte : ℕ → U → Option ℕ × U
  unfolding first_byte
  read_byte wait u = let (bytes, u') = driver.read_bytes 1 wait u in (first_byte bytes, u')

  -- Either the next byte of the line has been taken, or nothing.
  pub read_byte_lem :
      {incoming : U → Text}
      → IsLawful driver incoming
      → (wait : ℕ) (u : U)
      → (((read_byte wait u).0 ≡ none) × (incoming u ≡ incoming (read_byte wait u).1))
        ⊎ ((b : ℕ) × ((read_byte wait u).0 ≡ some b)
            × (incoming u ≡ b ∷ incoming (read_byte wait u).1))
  unfolding read_byte first_byte
  read_byte_lem {incoming} law wait u = split (driver.read_bytes 1 wait u) refl
    where
      split :
          (r : Option Text × U)
          → driver.read_bytes 1 wait u ≡ r
          → ((first_byte r.0 ≡ none) × (incoming u ≡ incoming r.1))
            ⊎ ((b : ℕ) × (first_byte r.0 ≡ some b) × (incoming u ≡ b ∷ incoming r.1))
      split (none, u') e = inl (refl, law.read_none 1 wait u u' e)
      split (some [], u') e = inl (refl, (law.read_some 1 wait u u' [] e).0)
      split (some (b ∷ []), u') e = inr (b, refl, (law.read_some 1 wait u u' (b ∷ []) e).0)
      split (some (b ∷ c ∷ bytes), u') e =
          let l = (law.read_some 1 wait u u' (b ∷ c ∷ bytes) e).1 in absurd (omega arith)

  -- The driver has just been asked for a byte and gave none.
  pub record Silent (u : U) : Type 0 where
    pub wait : ℕ
    pub asked : U
    pub nothing : (read_byte wait asked).0 ≡ none
    pub left : (read_byte wait asked).1 ≡ u

  -- The clock has just shown that more than `timeout` ticks have gone by since `start`.
  pub record Late (start timeout : ℕ) (u : U) : Type 0 where
    pub asked : U
    pub over : timeout < sub_size (driver.ticks asked).0 start
    pub left : (driver.ticks asked).1 ≡ u

  -- The clock has shown that no more than `timeout` ticks have gone by since `start`, and the driver has
  -- then been asked for a byte, for the ticks that are left.
  pub record InTime (start timeout : ℕ) (u : U) : Type 0 where
    pub asked : U
    pub not_over : sub_size (driver.ticks asked).0 start ≤ timeout
    pub left :
        (read_byte
          (sub_size timeout (sub_size (driver.ticks asked).0 start))
          (driver.ticks asked).1).1
        ≡ u

  -- All that the line brings has arrived, and the clock stands still while it is read.
  pub record IsPrompt (incoming : U → Text) : Type 0 where
    pub still : (u v : U) → (driver.ticks u).0 ≡ (driver.ticks v).0
    pub delivers :
        (wait : ℕ) (u : U) → (read_byte wait u).0 ≡ none → incoming (read_byte wait u).1 ≡ []
