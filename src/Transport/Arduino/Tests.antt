-- ===== src/Transport/Arduino/Tests.antt =====
-- Runs of the transport over a line that has already received everything, with a clock that goes on
-- by one millisecond with each look at it.

use a76xx.Prelude.{
  ℕ, ◌+◌, ◌-◌, ◌%◌, ◌^◌, ◌<◌, ◌≤◌, ◌≡◌, ltb→lt, refl, ap, true, false, none, some, [], ◌∷◌, ◌++◌,
  length, get_or, codes, arith,
}
use a76xx.Prelude.Int.{ℤ, pos, negsuc}
use a76xx.Ring.{sub_size}
use a76xx.Serial.{Text, Response}
use a76xx.Transport.Stream.{Stream, IsLawful, IsTicking, CircularBuffer, IsCircular, last_bytes}
use a76xx.Transport.Arduino.{Handlers, candidates, wait_response, ends_with}
use a76xx.Transport.Arduino.Wait.{AllTake, Answers, wait_response-Answers}

-- The time and the text of the line.
abbrev Wire : Type 0
Wire = ℕ × Text

next_byte : Wire → ℤ × Wire
next_byte (t, []) = (negsuc 0, (t, []))
next_byte (t, b ∷ line) = (pos (b % 256), (t, line))

wire : Stream Wire Unit
unfolding next_byte
wire = record {
  millis = λ u. (u.0 % 2 ^ 32, ((u.0 + 1), u.1));
  set_timeout = λ timeout u. u;
  available = λ u. (length u.1, u);
  print = λ item u. u;
  parse_int = λ u. (pos 0, u);
  parse_float = λ u. (tt, u);
  flush = λ u. u;
  peek = λ u. (pos 0, u);
  read = next_byte;
  find = λ c u. (false, u);
  write = λ text u. (length text, u);
  read_bytes_until = λ c n u. ((0, []), u);
  read_bytes = λ n u. ((0, []), u);
}

-- The bytes of the line as the stream hands them out.
bytes_of : Text → Text
bytes_of [] = []
bytes_of (b ∷ line) = (b % 256) ∷ bytes_of line

incoming : Wire → Text
unfolding bytes_of
incoming u = bytes_of u.1

patience : ℕ → ℕ → Wire → ℕ
patience start timeout u = timeout - sub_size (u.0 % 2 ^ 32) start

wire-IsLawful : IsLawful wire incoming
unfolding wire incoming
wire-IsLawful = record {
  millis_keeps = λ u. refl;
  available_keeps = λ u. refl;
  reads = λ u u' n e h. given u u' n e h;
}
  where
    given :
        (u u' : Wire) (n : ℕ)
        → ◌≡◌ {A = ℕ × Wire} (length u.1, u) (n, u')
        → 0 < n
        → (b : ℕ) × (b < 256)
          × ((next_byte u').0 ≡ pos b)
          × (incoming u' ≡ b ∷ incoming (next_byte u').1)
    given u (t, []) n e h =
        ground (arith, ap (λ (p : ℕ × Wire). p.0) e, ap (λ (p : ℕ × Wire). length p.1.1) e)
    given u (t, b ∷ line) n e h = (b % 256, omega arith, refl, refl)

ring : CircularBuffer Text
ring = record {
  empty = [];
  push = λ b d. last_bytes 64 (d ++ b ∷ []);
  size = λ d. length d;
  at = λ d i. get_or d i 0;
}

ring-IsCircular : IsCircular ring (λ d. d)
unfolding ring
ring-IsCircular = record {
  held-empty = refl;
  held-push = λ b d. refl;
  size_lem = λ d. refl;
  at_lem = λ d i h. refl;
}

-- A handler that takes nothing.
abbrev quiet : Handlers (Wire → Wire)
quiet = (codes "+CMTI: ", λ u. u) ∷ []

wire-IsTicking : IsTicking wire patience
unfolding wire patience next_byte
wire-IsTicking = record {
  bounded = λ u. omega arith;
  look = λ start timeout u s t e.
      let h = ltb→lt (sub_size (u.0 % 2 ^ 32) start) timeout e in omega arith;
  available_waits = λ start timeout u. omega arith;
  read_waits = λ start timeout u. waits start timeout u;
}
  where
    waits :
        (start timeout : ℕ) (u : Wire)
        → patience start timeout (next_byte u).1 ≤ patience start timeout u
    waits start timeout (t, []) = omega arith
    waits start timeout (t, b ∷ line) = omega arith

quiet-AllTake : AllTake incoming patience quiet
quiet-AllTake = (λ u. record { taken = []; split = refl; waits = λ start timeout. omega arith }, tt)

abbrev answer : Wire
answer = (7, codes "+CMTI: 3,x" ++ 13 ∷ 10 ∷ codes "OK" ++ 13 ∷ 10 ∷ codes "rest")

wait_test :
    let r =
      wait_response ring wire patience quiet (some (codes "3,")) none none 100 true true answer in
    (r.0 ≡ Response.match_1st) × (r.1.1 ≡ b'x' ∷ 13 ∷ 10 ∷ codes "OK" ++ 13 ∷ 10 ∷ codes "rest")
unfolding wait_response ring wire patience next_byte ends_with
wait_test = (refl, refl)

wait_response-Answers_example :
    Answers wire incoming
      (candidates (some (codes "3,")) none none true true)
      quiet
      (wire.millis answer).0
      100
      []
      answer
      (wait_response ring wire patience quiet (some (codes "3,")) none none 100 true true answer)
wait_response-Answers_example =
    wait_response-Answers wire incoming patience ring (λ d. d) quiet (some (codes "3,")) none none
      100 true true answer (omega arith) wire-IsLawful wire-IsTicking ring-IsCircular quiet-AllTake
