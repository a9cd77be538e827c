-- ===== src/Transport/Esp/Wait.antt =====
-- waitResponse of src/modem_serial_esp.h answers what the relation `Scan` says of the text that it
-- takes off the line.
use a76xx.Prelude.{
  ℕ, suc, ◌<◌, ◌≤◌, ◌≡◌, ◌≢◌, ◌⊎◌, true, false, refl, sym, ap, ◌∙◌, inl, inr, Bool, Option, some,
  [], ◌∷◌, ◌++◌, length, length-append, append_assoc, ltb, arith, Bool-cases,
}
use a76xx.Prelude.Loop.{Step, Round, loop_lem, returned}
use a76xx.Ring.{clear, sub_size}
use a76xx.Ring.Contents.{contents, contents-clear}
use a76xx.Serial.{Text, Response}
use a76xx.Transport.Uart.{Uart, IsLawful, IsPrompt, Late, InTime, Silent, read_byte_lem}
use a76xx.Transport.Candidates.{Candidates, First, AllLead, First-AllLead}
use a76xx.Transport.Esp.{
  ModemSerialEsp, Handler, push, process_event, after_match, after_byte, wait_round, wait_response,
  candidates,
}
use a76xx.Transport.Esp.Scan.{
  Ends, first_match_lem, IsReady, push-IsReady, clear-IsReady, contents-push, Scan,
}

module _ {U : Type 0} (incoming : U → Text) where
  -- The second state comes from the first by taking text off the line, with a ring that is sound.
  pub record Takes (s s' : ModemSerialEsp U) : Type 0 where
    pub taken : Text
    pub split : incoming s.uart ≡ taken ++ incoming s'.uart
    pub ready : IsReady s'.buf

  -- Every handler does no more to the line than to take text.
  abbrev pub AllTake : Candidates (Handler U) → Type 0
  AllTake handlers =
      (held : Text) (process : Handler U)
      → First Ends handlers held process
      → (s : ModemSerialEsp U) → IsReady s.buf
      → Takes s (process s)

  -- A timeout means that the clock has just shown that the time is over, or that the driver has just
  -- given no byte; on a line that brings everything at once, that it has brought all. Another response
  -- means that its last byte was asked for in time.
  pub record Answers (driver : Uart U) (start_time timeout_ticks : ℕ)
      (targets : Candidates Response) (handlers : Candidates (Handler U)) (s : ModemSerialEsp U)
      (result : Response × ModemSerialEsp U) : Type 0 where
    pub got : Text
    pub split : incoming s.uart ≡ got ++ incoming result.1.uart
    pub scan : Scan targets handlers (contents s.buf) got result.0
    pub emptied : contents result.1.buf ≡ []
    pub ready : IsReady result.1.buf
    pub over :
        result.0 ≡ Response.timeout
        → Late driver start_time timeout_ticks result.1.uart ⊎ Silent driver result.1.uart
    pub timely : result.0 ≢ Response.timeout → InTime driver start_time timeout_ticks result.1.uart
    pub complete :
        IsPrompt driver incoming → result.0 ≡ Response.timeout → incoming result.1.uart ≡ []

module _ {U : Type 0} (driver : Uart U) {incoming : U → Text} (law : IsLawful driver incoming)
    (targets : Candidates Response) (handlers : Candidates (Handler U))
    (take_all : AllTake incoming handlers) (waited : AllLead (λ r. r ≢ Response.timeout) targets)
    (start_time timeout_ticks : ℕ) where
  -- The bytes that the line still brings.
  abbrev left_over : ModemSerialEsp U → ℕ
  left_over s = length (incoming s.uart)

  abbrev Waits : ModemSerialEsp U → Step (ModemSerialEsp U) (Response × ModemSerialEsp U) → Type 0
  Waits s x =
      Round left_over (λ t. IsReady t.buf)
        (λ t a. Answers incoming driver start_time timeout_ticks targets handlers t a) s x

  -- A round that received the byte `b`.
  pushed :
      (s : ModemSerialEsp U) (b : ℕ) (u : U)
      → IsReady s.buf
      → incoming s.uart ≡ b ∷ incoming u
      → InTime driver start_time timeout_ticks u
      → Waits s (after_byte targets handlers s.buf u (some b))
  unfolding after_byte after_match process_event
  pushed s b u ready split soon =
      let ready' = push-IsReady b ready in
      let w = contents-push b ready in
      let s1 : ModemSerialEsp U = record { uart = u; buf = push b s.buf } in
      elim (first_match_lem {r = push b s.buf} targets ready'.valid) [
        | inl (rsp, e, first) ↦ rw e (
            inr (
              _,
              refl,
              record {
                got = b ∷ [];
                split = split;
                scan = Scan.found (rw w at first);
                emptied = contents-clear (push b s.buf);
                ready = clear-IsReady ready';
                over =
                    λ q. absurd (First-AllLead (λ r. r ≢ Response.timeout) targets first waited q);
                timely = λ q. soon;
                complete = λ prompt q.
                    absurd (First-AllLead (λ r. r ≢ Response.timeout) targets first waited q);
              },
            ))
        | inr (e, misses) ↦ rw e (elim (first_match_lem {r = push b s.buf} handlers ready'.valid) [
          | inl (process, f, first) ↦ rw f (
              let t = take_all _ process first s1 ready' in
              let s2 = process s1 in
              inl (
                record { uart = s2.uart; buf = clear s2.buf },
                refl,
                clear-IsReady t.ready,
                omega (
                  arith,
                  ap (λ (l : Text). length l) split,
                  ap (λ (l : Text). length l) t.split,
                  length-append t.taken (incoming s2.uart),
                ),
                λ a r. record {
                  got = b ∷ t.taken ++ r.got;
                  split =
                      split
                      ∙ ap (λ (l : Text). b ∷ l)
                          (t.split
                            ∙ ap (λ (l : Text). t.taken ++ l) r.split
                            ∙ sym (append_assoc t.taken r.got (incoming a.1.uart)));
                  scan =
                      Scan.event t.taken (rw w at misses) (rw w at first)
                        (rw (contents-clear s2.buf) at r.scan);
                  emptied = r.emptied;
                  ready = r.ready;
                  over = r.over;
                  timely = r.timely;
                  complete = r.complete;
                },
              ))
          | inr (f, calm) ↦ rw f (
              inl (
                s1,
                refl,
                ready',
                omega (arith, ap (λ (l : Text). length l) split),
                λ a r. record {
                  got = b ∷ r.got;
                  split = split ∙ ap (λ (l : Text). b ∷ l) r.split;
                  scan = Scan.neither (rw w at misses) (rw w at calm) (rw w at r.scan);
                  emptied = r.emptied;
                  ready = r.ready;
                  over = r.over;
                  timely = r.timely;
                  complete = r.complete;
                },
              ))
        ])
      ]

  round_lem :
      (s : ModemSerialEsp U)
      → (IsPrompt driver incoming → (v : U) → (driver.ticks v).0 ≡ start_time)
      → IsReady s.buf
      → Waits s (wait_round driver targets handlers start_time timeout_ticks s)
  unfolding wait_round after_byte
  round_lem s started ready =
      let (now, u) = driver.ticks s.uart in
      let elapsed = sub_size now start_time in
      let tick = law.ticks_keep s.uart in
      let wait = sub_size timeout_ticks elapsed in
      elim (Bool-cases (ltb timeout_ticks elapsed)) [
        | inl e ↦ rw e (
            inr (
              _,
              refl,
              gives_up s u ready (sym tick)
                  (inl (record { asked = s.uart; over = over_time elapsed e; left = refl }))
                  (λ prompt. absurd (in_time now (started prompt s.uart) e)),
            ))
        | inr e ↦ rw e (elim (read_byte_lem driver law wait u) [
          | inl (f, keep) ↦ rw f (
              inr (
                _,
                refl,
                gives_up s _ ready (sym tick ∙ keep)
                    (inr (record { wait = wait; asked = u; nothing = f; left = refl }))
                    (λ prompt. prompt.delivers _ _ f),
              ))
          | inr (b, f, take) ↦ rw f (
              pushed s b _ ready (sym tick ∙ take)
                (record { asked = s.uart; not_over = not_late elapsed e; left = refl }))
        ])
      ]
    where
      in_time :
          (now : ℕ) → now ≡ start_time → ltb timeout_ticks (sub_size now start_time) ≡ true → ⊥
      in_time now e h = ground arith

      over_time : (n : ℕ) → ltb timeout_ticks n ≡ true → timeout_ticks < n
      over_time n h = ground arith

      not_late : (n : ℕ) → ltb timeout_ticks n ≡ false → n ≤ timeout_ticks
      not_late n h = ground arith

      gives_up :
          (s : ModemSerialEsp U) (u : U)
          → IsReady s.buf
          → incoming s.uart ≡ incoming u
          → Late driver start_time timeout_ticks u ⊎ Silent driver u
          → (IsPrompt driver incoming → incoming u ≡ [])
          → Answers incoming driver start_time timeout_ticks targets handlers s
              (Response.timeout, record { uart = u; buf = clear s.buf })
      gives_up s u ready e ended over = record {
        got = [];
        split = e;
        scan = Scan.quiet;
        emptied = contents-clear s.buf;
        ready = clear-IsReady ready;
        over = λ q. ended;
        timely = λ q. absurd (q refl);
        complete = λ prompt q. over prompt;
      }

-- waitResponse always returns, and what it answers is what the relation `Scan` says of the strings
-- waited for, of those of the URCs, of the bytes that the ring held and of the text that it took off
-- the line; it leaves the ring sound and empty. It answers a timeout only when the clock has just
-- shown that the time is over, or the driver has just given no byte, and another response only when
-- the last byte was asked for in time, for no longer than the rest of it. On a line that brings
-- everything at once, it answers a timeout only when nothing is left. The driver hands out the line's
-- bytes in order, and the handlers of the URCs do no more to the line than to take text.
pub wait_response_lem :
    {U : Type 0} (driver : Uart U) (incoming : U → Text) (handlers : Candidates (Handler U))
    (match_1 match_2 match_3 : Option Text) (millis : ℕ) (match_ok match_error : Bool)
    (s : ModemSerialEsp U)
    → IsLawful driver incoming
    → AllTake incoming handlers
    → IsReady s.buf
    → Answers incoming driver
        (driver.ticks s.uart).0
        (driver.to_ticks millis)
        (candidates match_1 match_2 match_3 match_ok match_error)
        handlers
        s
        (wait_response driver incoming handlers match_1 match_2 match_3 millis match_ok match_error
          s)
unfolding wait_response returned candidates
wait_response_lem driver incoming handlers match_1 match_2 match_3 millis match_ok match_error s law
      take_all ready =
    let targets = candidates match_1 match_2 match_3 match_ok match_error in
    let (start_time, u) = driver.ticks s.uart in
    let s0 : ModemSerialEsp _ = record { uart = u; buf = s.buf } in
    let (a, e, r) =
      loop_lem (wait_round driver targets handlers start_time (driver.to_ticks millis)) _ _ _
        (λ t ready'.
          round_lem driver law targets handlers take_all (cc, (cc, (cc, (cc, (cc, tt))))) start_time
            (driver.to_ticks millis) t (λ prompt v. prompt.still v s.uart) ready')
        (suc (length (incoming u))) s0 (omega arith) ready in
    rw e record {
      got = r.got;
      split = sym (law.ticks_keep s.uart) ∙ r.split;
      scan = r.scan;
      emptied = r.emptied;
      ready = r.ready;
      over = r.over;
      timely = r.timely;
      complete = r.complete;
    }
