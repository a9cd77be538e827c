-- ===== src/Transport/Arduino/Scan.antt =====
-- What waitResponse of src/modem_serial_arduino.h is to do, as a relation on the text of the line:
-- the last 64 characters decide, first about the URCs, each of whose handlers may take text, and then
-- about the answer.
use a76xx.Prelude.{ℕ, [], ◌∷◌, ◌++◌}
use a76xx.Serial.{Text, Response}
use a76xx.Ring.Match.{EndsIn}
use a76xx.Transport.Candidates.{Candidates, First, Misses}
use a76xx.Transport.Stream.{last_bytes}
use a76xx.Transport.Arduino.{Handlers}

-- `Handled events held taken`: the handlers whose strings end the text run one after another, and
-- together take `taken`.
pub data Handled {E : Type 0} : Handlers E → Text → Text → Type 0 where
  over : {held : Text} → Handled [] held []
  runs :
      {held taken : Text} {str : Text} {e : E} {more : Handlers E} (first : Text)
      → EndsIn held str
      → Handled more held taken
      → Handled ((str, e) ∷ more) held (first ++ taken)
  passes :
      {held taken : Text} {str : Text} {e : E} {more : Handlers E}
      → ¬ (EndsIn held str)
      → Handled more held taken
      → Handled ((str, e) ∷ more) held taken

-- `Scan targets events held got rsp`: behind the characters `held`, the line brings `got`, and the
-- answer is `rsp`. It is a timeout when the wait is over; otherwise the next character comes, the
-- URCs are handled, and the characters held complete one of the targets, or none.
pub data Scan {E : Type 0} (targets : Candidates Response) (events : Handlers E)
    : Text → Text → Response → Type 0 where
  late : {held : Text} → Scan targets events held [] Response.timeout
  found :
      {held taken : Text} {b : ℕ} {rsp : Response}
      → Handled events (last_bytes 64 (held ++ b ∷ [])) taken
      → First EndsIn targets (last_bytes 64 (held ++ b ∷ [])) rsp
      → Scan targets events held (b ∷ taken) rsp
  goes :
      {held taken got : Text} {b : ℕ} {rsp : Response}
      → Handled events (last_bytes 64 (held ++ b ∷ [])) taken
      → Misses EndsIn targets (last_bytes 64 (held ++ b ∷ []))
      → Scan targets events (last_bytes 64 (held ++ b ∷ [])) got rsp
      → Scan targets events held (b ∷ taken ++ got) rsp
