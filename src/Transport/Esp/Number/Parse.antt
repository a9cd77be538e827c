-- ===== src/Transport/Esp/Number/Parse.antt =====
-- What parseInt and parseFloat of src/modem_serial_esp.h answer to the text that they take off the
-- line, as an automaton on its characters.
use a76xx.Prelude.{
  ℕ, suc, ◌<◌, ◌≡◌, refl, sym, ap, ◌∙◌, inl, inr, Bool, true, false, none, some, [], ◌∷◌, ◌++◌,
  length, arith, Bool-cases, ltb,
}
use a76xx.Prelude.Loop.{loop_lem, returned}
use a76xx.Ring.{clear, sub_size}
use a76xx.Ring.Contents.{contents, contents-clear}
use a76xx.Serial.{Text}
use a76xx.Transport.Uart.{Uart, IsLawful, IsPrompt, Late, Silent, read_byte_lem}
use a76xx.Transport.Esp.{ModemSerialEsp, push}
use a76xx.Transport.Esp.Scan.{IsReady, window, push-IsReady, clear-IsReady, contents-push}
use a76xx.Transport.Esp.Bytes.{default_timeout}
use a76xx.Transport.Esp.Number.Automaton.{InNumber, Before, Parses}
use a76xx.Transport.Esp.Number.{strchr, NumberFormat, Parser, parse_byte, parse_round, parse_number}
use a76xx.Transport.Esp.Number.Evaluate.{ParsesFrom, Sound, Works, evaluate_lem}

module _ {U N : Type 0} (format : NumberFormat N) (driver : Uart U) {incoming : U → Text}
    (law : IsLawful driver incoming) (start_time timeout_ticks : ℕ) where
  -- A byte that may belong to the number.
  byte_lem :
      (valid_number : Bool) (chars : Text) (s : ModemSerialEsp U) (u : U) (c : ℕ)
      → IsReady s.buf
      → (valid_number ≡ false → contents s.buf ≡ [])
      → incoming s.uart ≡ c ∷ incoming u
      → Works format driver incoming start_time timeout_ticks
          (record { valid_number = valid_number; valid_chars = chars; serial = s })
          (parse_byte format valid_number chars s.buf u (some c))
  unfolding parse_byte
  byte_lem true chars s u c ready empty taken = elim (Bool-cases (strchr chars c)) [
    | inl e ↦ rw e (
        inl (
          _,
          refl,
          (push-IsReady c ready, λ q. absurd (cc q)),
          omega (arith, ap (λ (t : Text). length t) taken),
          λ a r. record {
            got = c ∷ r.got;
            split = taken ∙ ap (λ (t : Text). c ∷ t) r.split;
            parses = InNumber.belongs e (rw (contents-push c ready) at r.parses);
            complete = r.complete;
            ready = r.ready;
          },
        ))
    | inr e ↦ rw e (
        evaluate_lem format driver incoming start_time timeout_ticks chars s u (some c) ready
          (inr (c, refl, taken, e)))
  ]
  byte_lem false chars s u c ready empty taken = elim (Bool-cases (strchr chars c)) [
    | inl e ↦ rw e (
        inl (
          _,
          refl,
          (push-IsReady c ready, λ q. absurd (cc q)),
          omega (arith, ap (λ (t : Text). length t) taken),
          λ a r. record {
            got = c ∷ r.got;
            split = taken ∙ ap (λ (t : Text). c ∷ t) r.split;
            parses = Before.begins e (rw (w c) at r.parses);
            complete = r.complete;
            ready = r.ready;
          },
        ))
    | inr e ↦ rw e (
        inl (
          _,
          refl,
          (ready, empty),
          omega (arith, ap (λ (t : Text). length t) taken),
          λ a r. record {
            got = c ∷ r.got;
            split = taken ∙ ap (λ (t : Text). c ∷ t) r.split;
            parses = Before.skipped e r.parses;
            complete = r.complete;
            ready = r.ready;
          },
        ))
  ]
    where
      w : (c : ℕ) → contents (push c s.buf) ≡ c ∷ []
      w c = contents-push c ready ∙ ap (λ (t : Text). window (t ++ c ∷ [])) (empty refl)

  -- No byte comes.
  silent_lem :
      (valid_number : Bool) (chars : Text) (s : ModemSerialEsp U) (u : U)
      → IsReady s.buf
      → (valid_number ≡ false → contents s.buf ≡ [])
      → incoming s.uart ≡ incoming u
      → Silent driver u
      → (IsPrompt driver incoming → incoming u ≡ [])
      → Works format driver incoming start_time timeout_ticks
          (record { valid_number = valid_number; valid_chars = chars; serial = s })
          (parse_byte format valid_number chars s.buf u none)
  unfolding parse_byte
  silent_lem true chars s u ready empty keep quiet over =
      evaluate_lem format driver incoming start_time timeout_ticks chars s u none ready
        (inl (refl, keep, quiet, over))
  silent_lem false chars s u ready empty keep quiet over = inr (
    _,
    refl,
    record {
      got = [];
      split = keep;
      parses = rw (empty refl) (Before.nothing_came (inr quiet));
      complete = λ prompt q. over prompt;
      ready = ready;
    },
  )

  expired_Parses :
      (TimeUp Quiet : Type 0) (valid_number : Bool) (chars held : Text)
      → TimeUp
      → Parses format TimeUp Quiet valid_number chars held [] format.nothing []
  expired_Parses TimeUp Quiet true chars held late = InNumber.expired late
  expired_Parses TimeUp Quiet false chars held late = Before.nothing_came (inl late)

  parse_round_lem :
      (p : Parser U)
      → Sound p
      → (IsPrompt driver incoming → (u : U) → (driver.ticks u).0 ≡ start_time)
      → Works format driver incoming start_time timeout_ticks p
          (parse_round format driver start_time timeout_ticks p)
  unfolding parse_round
  parse_round_lem p (ready, empty) started =
      let (now, u) = driver.ticks p.serial.uart in
      let elapsed = sub_size now start_time in
      let tick = law.ticks_keep p.serial.uart in
      elim (Bool-cases (ltb timeout_ticks elapsed)) [
        | inl e ↦ rw e (
            inr (
              _,
              refl,
              expires p (sym tick) ready
                  (record { asked = p.serial.uart; over = over_time elapsed e; left = refl })
                  (λ prompt. absurd (in_time now (started prompt p.serial.uart) e)),
            ))
        | inr e ↦ rw e (elim (read_byte_lem driver law (sub_size timeout_ticks elapsed) u) [
          | inl (f, keep) ↦ rw f (
              silent_lem p.valid_number p.valid_chars p.serial _ ready empty (sym tick ∙ keep)
                (record {
                  wait = sub_size timeout_ticks elapsed;
                  asked = u;
                  nothing = f;
                  left = refl;
                })
                (λ prompt. prompt.delivers _ _ f))
          | inr (c, f, taken) ↦
              rw f
                (byte_lem p.valid_number p.valid_chars p.serial _ c ready empty (sym tick ∙ taken))
        ])
      ]
    where
      in_time :
          (now : ℕ) → now ≡ start_time → ltb timeout_ticks (sub_size now start_time) ≡ true → ⊥
      in_time now e h = ground arith

      over_time : (elapsed : ℕ) → ltb timeout_ticks elapsed ≡ true → timeout_ticks < elapsed
      over_time elapsed h = ground arith

      expires :
          (p : Parser U) {u : U}
          → incoming p.serial.uart ≡ incoming u
          → IsReady p.serial.buf
          → Late driver start_time timeout_ticks u
          → (IsPrompt driver incoming → incoming u ≡ [])
          → ParsesFrom format driver incoming start_time timeout_ticks p
              (format.nothing, record { uart = u; buf = clear p.serial.buf })
      expires p e ready late over = record {
        got = [];
        split = e;
        parses =
            rw (contents-clear p.serial.buf)
              (expired_Parses _ _ p.valid_number p.valid_chars (contents p.serial.buf) late);
        complete = λ prompt q. over prompt;
        ready = clear-IsReady ready;
      }

-- What is taken off the line to parse a number; the ring then holds what ended it.
pub record ParsesNumber {U N : Type 0} (format : NumberFormat N) (driver : Uart U)
    (incoming : U → Text) (s : ModemSerialEsp U) (result : N × ModemSerialEsp U) : Type 0 where
  pub got : Text
  pub split : incoming s.uart ≡ got ++ incoming result.1.uart
  pub parses :
      Before format
        (Late driver (driver.ticks s.uart).0 (driver.to_ticks default_timeout) result.1.uart)
        (Silent driver result.1.uart)
        format.valid_chars
        got
        result.0
        (contents result.1.buf)
  pub complete : IsPrompt driver incoming → contents result.1.buf ≡ [] → incoming result.1.uart ≡ []
  pub ready : IsReady result.1.buf

-- parseInt and parseFloat always return. They discard what the ring held; what they take off the line
-- and answer is what the automaton says: characters that cannot begin a number are skipped, those
-- that the format allows are collected, and the one that ends the number stays to be read, in the
-- ring. A number of 20 characters or more counts as zero. When the line falls silent behind a number,
-- the characters collected are evaluated; the answer is zero instead only when the clock has just
-- shown that the time is over.
pub parse_number_lem :
    {U N : Type 0} (format : NumberFormat N) (driver : Uart U) (incoming : U → Text)
    (s : ModemSerialEsp U)
    → IsLawful driver incoming
    → IsReady s.buf
    → ParsesNumber format driver incoming s (parse_number format driver incoming s)
unfolding parse_number returned
parse_number_lem format driver incoming s law ready =
    let (start_time, u) = driver.ticks s.uart in
    let (a, e, r) =
      loop_lem (parse_round format driver start_time (driver.to_ticks default_timeout)) _ _ _
        (λ p good.
          parse_round_lem format driver law start_time (driver.to_ticks default_timeout) p good
            (λ prompt v. prompt.still v s.uart))
        (suc (length (incoming u)))
        (record {
          valid_number = false;
          valid_chars = format.valid_chars;
          serial = record { uart = u; buf = clear s.buf };
        })
        (omega arith) (clear-IsReady ready, λ q. contents-clear s.buf) in
    rw e record {
      got = r.got;
      split = sym (law.ticks_keep s.uart) ∙ r.split;
      parses = r.parses;
      complete = r.complete;
      ready = r.ready;
    }
