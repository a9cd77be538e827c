-- ===== src/Transport/Esp/Wire.antt =====
-- A UART driver for the runs of src/modem_serial_esp.h: it gives back the bytes that it holds.
use a76xx.Prelude.{
  ℕ, zero, suc, ◌≡◌, ◌≢◌, ◌≤◌, ap, sym, refl, arith, take-append-drop, length-take, ◌∙◌, Option,
  none, some, [], ◌∷◌, ◌++◌, take, drop, length,
}
use a76xx.Serial.{Text}
use a76xx.Transport.Uart.{Uart, IsLawful, IsPrompt, read_byte, first_byte}

unfoldable received : ℕ → Text → Option Text
received zero line = none
received (suc n) line = some (take (suc n) line)

unfoldable pub wire : Uart Text
unfolding received
wire = record {
  ticks = λ line. (0, line);
  to_ticks = λ millis. millis;
  read_bytes = λ n wait line. (received n line, drop n line);
  write_bytes = λ text line. (length text, line);
  wait_tx_done = λ wait line. line;
  buffered_data_len = λ line. (some (length line), line);
}

some_injective : {a b : Text} → ◌≡◌ {A = Option Text} (some a) (some b) → a ≡ b
some_injective e = cc e

none≢some : {a : Text} → ◌≢◌ {A = Option Text} none (some a)
none≢some e = cc e

pub wire-IsLawful : IsLawful wire (λ l. l)
unfolding wire
wire-IsLawful = record {
  read_some = λ n wait u u' bytes e. given n u u' bytes e;
  read_none = λ n wait u u' e. refused n u u' e;
  ticks_keep = λ u. refl;
  write_keeps = λ text u. refl;
  wait_keeps = λ wait u. refl;
  len_keeps = λ u. refl;
}
  where
    given :
        (n : ℕ) (u u' bytes : Text)
        → ◌≡◌ {A = Option Text × Text} (received n u, drop n u) (some bytes, u')
        → (u ≡ bytes ++ u') × (length bytes ≤ n)
    given zero u u' bytes e = absurd (none≢some (ap (λ p. p.0) e))
    given (suc n) u u' bytes e =
        let b = some_injective (ap (λ p. p.0) e) in
        let d = ap (λ p. p.1) e in
        (
          sym (take-append-drop (suc n) u) ∙ rw (b, d) refl,
          omega (arith, ap (λ (t : Text). length t) b, length-take (suc n) u),
        )

    refused :
        (n : ℕ) (u u' : Text)
        → ◌≡◌ {A = Option Text × Text} (received n u, drop n u) (none, u')
        → u ≡ u'
    refused zero u u' e = ap (λ p. p.1) e
    refused (suc n) u u' e = absurd (none≢some (sym (ap (λ p. p.0) e)))

pub wire-IsPrompt : IsPrompt wire (λ l. l)
unfolding wire read_byte first_byte
wire-IsPrompt = record { still = λ u v. refl; delivers = λ wait u e. silence u e }
  where
    silence : (u : Text) → first_byte (some (take 1 u)) ≡ none → drop 1 u ≡ []
    silence [] e = refl
    silence (b ∷ u) e = absurd (cc e)
