-- ===== src/Transport/Arduino/Wait.antt =====
-- waitResponse of src/modem_serial_arduino.h answers what the relation `Scan` says of the text that
-- it takes off the line, and gives up only when the time is over.
use a76xx.Prelude.{
  ℕ, suc, ◌^◌, ◌≤◌, ◌<◌, ◌≡◌, refl, sym, ap, ◌∙◌, ◌≢◌, inl, inr, Bool, false, Option, [], ◌∷◌, ◌++◌,
  append_assoc, ltb, arith, Bool-cases,
}
use a76xx.Prelude.Loop.{Step, Round, loop_lem, returned}
use a76xx.Prelude.Int.{uint8}
use a76xx.Serial.{Text, Response}
use a76xx.Ring.Match.{EndsIn}
use a76xx.Transport.Candidates.{Candidates, First, First-AllLead}
use a76xx.Transport.Stream.{Stream, IsLawful, IsTicking, CircularBuffer, IsCircular, within}
use a76xx.Transport.Arduino.{
  Handlers, candidates, process_events, after_match, after_char, wait_round, wait_response,
}
use a76xx.Transport.Arduino.Match.{ends_with-cases, first_match_lem}
use a76xx.Transport.Arduino.Scan.{Handled, Scan}

module _ {U : Type 0} (incoming : U → Text) (patience : ℕ → ℕ → U → ℕ) where
  -- The second state comes from the first by taking text off the line, and no time is won.
  pub record Takes (u u' : U) : Type 0 where
    pub taken : Text
    pub split : incoming u ≡ taken ++ incoming u'
    pub waits : (start timeout : ℕ) → patience start timeout u' ≤ patience start timeout u

  -- Every handler does no more to the line than to take text.
  abbrev pub AllTake : Handlers (U → U) → Type 0
  AllTake [] = Unit
  AllTake ((str, process) ∷ more) = ((u : U) → Takes u (process u)) × AllTake more

  pub record Events (handlers : Handlers (U → U)) (held : Text) (u u' : U) : Type 0 where
    pub taken : Text
    pub split : incoming u ≡ taken ++ incoming u'
    pub waits : (start timeout : ℕ) → patience start timeout u' ≤ patience start timeout u
    pub handled : Handled handlers held taken

-- The answer is a timeout only behind a look at the clock at which the time was over.
pub record Answers {U F : Type 0} (stream : Stream U F) (incoming : U → Text)
    (targets : Candidates Response) (handlers : Handlers (U → U)) (start timeout : ℕ) (held : Text)
    (u : U) (result : Response × U) : Type 0 where
  pub got : Text
  pub split : incoming u ≡ got ++ incoming result.1
  pub scan : Scan targets handlers held got result.0
  pub on_time :
      result.0 ≡ Response.timeout
      → (v : U) × (within start timeout (stream.millis v).0 ≡ false)
        × (result.1 ≡ (stream.millis v).1)

module _ {U F B : Type 0} (stream : Stream U F) {incoming : U → Text} {patience : ℕ → ℕ → U → ℕ}
    (law : IsLawful stream incoming) (ticking : IsTicking stream patience)
    (buffer : CircularBuffer B) {held : B → Text} (circular : IsCircular buffer held) where
  process_events_lem :
      (handlers : Handlers (U → U))
      → AllTake incoming patience handlers
      → (d : B) (u : U)
      → Events incoming patience handlers (held d) u (process_events buffer handlers d u)
  unfolding process_events
  process_events_lem [] all d u = record {
    taken = [];
    split = refl;
    waits = λ start timeout. omega arith;
    handled = Handled.over;
  }
  process_events_lem ((str, process) ∷ more) all d u =
      elim (ends_with-cases buffer circular d str) [
        | inl (e, h) ↦ rw e (
            let t = all.0 u in
            let r = process_events_lem more all.1 d (process u) in
            record {
              taken = t.taken ++ r.taken;
              split =
                  t.split
                  ∙ ap (λ (l : Text). t.taken ++ l) r.split
                  ∙ sym (append_assoc t.taken r.taken _);
              waits = λ start timeout. omega (arith, t.waits start timeout, r.waits start timeout);
              handled = Handled.runs t.taken h r.handled;
            })
        | inr (e, h) ↦ rw e (
            let r = process_events_lem more all.1 d u in
            record {
              taken = r.taken;
              split = r.split;
              waits = r.waits;
              handled = Handled.passes h r.handled;
            })
      ]

  module _ (targets : Candidates Response) (handlers : Handlers (U → U))
      (take_all : AllTake incoming patience handlers)
      (waited : (text : Text) (rsp : Response)
        → First EndsIn targets text rsp
        → rsp ≢ Response.timeout)
      (start timeout : ℕ) (start_fits : start < 2 ^ 32) (timeout_fits : timeout < 2 ^ 32) where
    abbrev looks_left : U × B → ℕ
    looks_left s = patience start timeout s.0

    abbrev Result : U × B → Response × U → Type 0
    Result s a = Answers stream incoming targets handlers start timeout (held s.1) s.0 a

    abbrev Waits : U × B → Step (U × B) (Response × U) → Type 0
    Waits s x = Round looks_left (λ t. Unit {0}) Result s x

    -- A round that has read the character `b`.
    pushed :
        (s : U × B) (b : ℕ) (u : U)
        → incoming s.0 ≡ b ∷ incoming u
        → patience start timeout u < patience start timeout s.0
        → Waits s (after_char buffer targets handlers u (buffer.push b s.1))
    unfolding after_char after_match
    pushed s b u split less =
        let d = buffer.push b s.1 in
        let w = circular.held-push b s.1 in
        let t = process_events_lem handlers take_all d u in
        let u' = process_events buffer handlers d u in
        let split' : incoming s.0 ≡ b ∷ (t.taken ++ incoming u') =
          split ∙ ap (λ (l : Text). b ∷ l) t.split in
        elim (first_match_lem buffer circular d targets) [
          | inl (rsp, e, first) ↦ rw e (
              inr (
                _,
                refl,
                record {
                  got = b ∷ t.taken;
                  split = split';
                  scan = Scan.found (rw w at t.handled) (rw w at first);
                  on_time = λ h. absurd (waited (held d) rsp first h);
                },
              ))
          | inr (e, misses) ↦ rw e (
              inl (
                (u', d),
                refl,
                tt,
                omega (arith, t.waits start timeout),
                λ a r. record {
                  got = b ∷ t.taken ++ r.got;
                  split =
                      split'
                      ∙ ap (λ (l : Text). b ∷ l)
                          (ap (λ (l : Text). t.taken ++ l) r.split
                            ∙ sym (append_assoc t.taken r.got (incoming a.1)));
                  scan = Scan.goes (rw w at t.handled) (rw w at misses) (rw w at r.scan);
                  on_time = r.on_time;
                },
              ))
        ]

    round_lem : (s : U × B) → Waits s (wait_round buffer stream targets handlers start timeout s)
    unfolding wait_round
    round_lem (u, d) =
        let (now, u1) = stream.millis u in
        let (n, u2) = stream.available u1 in
        let keep = law.millis_keeps u in
        let keep' = law.available_keeps u1 in
        elim (Bool-cases (within start timeout now)) [
          | inr e ↦ rw e (
              inr (
                _,
                refl,
                record {
                  got = [];
                  split = sym keep;
                  scan = Scan.late;
                  on_time = λ h. (u, e, refl);
                },
              ))
          | inl e ↦ rw e (
              let less = ticking.look start timeout u start_fits timeout_fits e in
              let less' = ticking.available_waits start timeout u1 in
              elim (Bool-cases (ltb 0 n)) [
                | inr f ↦ rw f (
                    inl (
                      (u2, d),
                      refl,
                      tt,
                      omega arith,
                      λ a r. record {
                        got = r.got;
                        split = sym keep ∙ sym keep' ∙ r.split;
                        scan = r.scan;
                        on_time = r.on_time;
                      },
                    ))
                | inl f ↦ rw f (
                    let (b, small, is, split) = law.reads u1 u2 n refl (ground arith) in
                    let same : uint8 (stream.read u2).0 ≡ b = rw is (omega arith) in
                    rw same (
                      pushed (u, d) b (stream.read u2).1 (sym keep ∙ sym keep' ∙ split)
                        (omega (arith, ticking.read_waits start timeout u2))))
              ])
        ]

-- No string waited for stands for a timeout.
candidates_answer :
    (match_1 match_2 match_3 : Option Text) (match_ok match_error : Bool) (text : Text)
    (rsp : Response)
    → First EndsIn (candidates match_1 match_2 match_3 match_ok match_error) text rsp
    → rsp ≢ Response.timeout
unfolding candidates
candidates_answer match_1 match_2 match_3 match_ok match_error text rsp found =
    First-AllLead (λ r. r ≢ Response.timeout)
      (candidates match_1 match_2 match_3 match_ok match_error) found
      (cc, (cc, (cc, (cc, (cc, tt)))))

-- waitResponse always returns: it answers what the relation `Scan` says of the strings waited for, of
-- those of the URCs and of the text that it took off the line, and a timeout only when the time was
-- over. The stream hands out the line's bytes in order, the buffer holds the last 64 characters, the
-- clock goes on, and the handlers of the URCs do no more than to take text.
pub wait_response-Answers :
    {U F B : Type 0} (stream : Stream U F) (incoming : U → Text) (patience : ℕ → ℕ → U → ℕ)
    (buffer : CircularBuffer B) (held : B → Text) (handlers : Handlers (U → U))
    (match_1 match_2 match_3 : Option Text) (timeout : ℕ) (match_ok match_error : Bool) (u : U)
    → timeout < 2 ^ 32
    → IsLawful stream incoming
    → IsTicking stream patience
    → IsCircular buffer held
    → AllTake incoming patience handlers
    → Answers stream incoming
        (candidates match_1 match_2 match_3 match_ok match_error)
        handlers
        (stream.millis u).0
        timeout
        []
        u
        (wait_response buffer stream patience handlers match_1 match_2 match_3 timeout match_ok
          match_error u)
unfolding wait_response returned
wait_response-Answers stream incoming patience buffer held handlers match_1 match_2 match_3 timeout
      match_ok match_error u fits law ticking circular take_all =
    let targets = candidates match_1 match_2 match_3 match_ok match_error in
    let (tstart, u') = stream.millis u in
    let waited = candidates_answer match_1 match_2 match_3 match_ok match_error in
    let (a, e, r) =
      loop_lem (wait_round buffer stream targets handlers tstart timeout) _ _ _
        (λ s g.
          round_lem stream law ticking buffer circular targets handlers take_all waited tstart
            timeout (ticking.bounded u) fits s)
        (suc (patience tstart timeout u')) (u', buffer.empty) (omega arith) tt in
    rw e record {
      got = r.got;
      split = sym (law.millis_keeps u) ∙ r.split;
      scan = rw (circular.held-empty) at r.scan;
      on_time = r.on_time;
    }
