-- ===== src/Transport/Esp/Dialog.antt =====
-- A dialog over src/modem_serial_esp.h on a line that brings everything at once, with no URCs to
-- handle: each function of the transport as a step on the text still to come.
pub mod Answer
use a76xx.Prelude.{
  ℕ, zero, suc, ◌+◌, ◌%◌, ◌^◌, ◌≤◌, ◌<◌, ◌≡◌, ◌≢◌, refl, sym, ap, ◌∙◌, inl, inr, Bool, true, false,
  Option, none, some, List, [], ◌∷◌, ◌++◌, length, length-append, append-nil, append_assoc, ltb,
  Bool-cases, codes, subst, arith,
}
use a76xx.Prelude.Int.{ℤ, pos}
use a76xx.Ring.{get_used, sub_size}
use a76xx.Ring.Contents.{contents, length-contents}
use a76xx.Serial.{Text, Response, Item}
use a76xx.Transport.Uart.{Uart, IsLawful, IsPrompt, read_byte, first_byte}
use a76xx.Transport.Esp.{ModemSerialEsp, wait_response, candidates}
use a76xx.Transport.Esp.Scan.{IsReady}
use a76xx.Transport.Esp.Wait.{wait_response_lem}
use a76xx.Transport.Esp.Bytes.{
  find, read_bytes, bytes_read, bytes_stored, default_timeout, write, flush,
}
use a76xx.Transport.Esp.Bytes.Stream.{view}
use a76xx.Transport.Esp.Bytes.Reads.{Absent, Finds, find_lem}
use a76xx.Transport.Esp.Number.{strchr, int_format, parse_int}
use a76xx.Transport.Esp.Number.Decimal.{IsInt32}
use a76xx.Transport.Esp.Number.Parse.{parse_number_lem}
use a76xx.Transport.Esp.Number.Line.{AllAre, parse_int_lem}
use a76xx.Transport.Esp.Print.{print_item, show_int}
use Answer.{answer_of, Scan-answer_of, Scan-nothing}

-- A search splits a text at the first terminator.
Absent-not : (t : ℕ) (before rest : Text) → Absent t (before ++ t ∷ rest) → ⊥
Absent-not t [] rest a = a.0 refl
Absent-not t (b ∷ before) rest a = Absent-not t before rest a.1

split_once :
    (t : ℕ) (before before' rest rest' : Text)
    → Absent t before
    → Absent t before'
    → before ++ t ∷ rest ≡ before' ++ t ∷ rest'
    → rest ≡ rest'
split_once t [] [] rest rest' a a' e = cc e
split_once t [] (b ∷ before') rest rest' a a' e =
    let same : t ≡ b = cc e in absurd (a'.0 (sym same))
split_once t (b ∷ before) [] rest rest' a a' e = let same : b ≡ t = cc e in absurd (a.0 same)
split_once t (b ∷ before) (c ∷ before') rest rest' a a' e =
    let tails : before ++ t ∷ rest ≡ before' ++ t ∷ rest' = cc e in
    split_once t before before' rest rest' a.1 a'.1 tails

no_bytes : (xs : Text) → length xs ≡ 0 → xs ≡ []
no_bytes [] e = refl
no_bytes (x ∷ xs) e = absurd (omega arith)

module _ {U : Type 0} (driver : Uart U) (incoming : U → Text) where
  -- The ring is sound and empty, and the line has this text still to bring.
  pub record At (s : ModemSerialEsp U) (text : Text) : Type 0 where
    pub ready : IsReady s.buf
    pub emptied : contents s.buf ≡ []
    pub line : incoming s.uart ≡ text

  -- The same with one character in the ring.
  pub record Holding (s : ModemSerialEsp U) (t : ℕ) (text : Text) : Type 0 where
    pub ready : IsReady s.buf
    pub held : contents s.buf ≡ t ∷ []
    pub line : incoming s.uart ≡ text

  module _ (law : IsLawful driver incoming) (prompt : IsPrompt driver incoming) where
    -- waitResponse gives the answer that the text of the line has in it.
    pub wait_at :
        (match_1 match_2 match_3 : Option Text) (millis : ℕ) (match_ok match_error : Bool)
        (s : ModemSerialEsp U) (text : Text) (rsp : Response) (rest : Text)
        → At s text
        → answer_of (candidates match_1 match_2 match_3 match_ok match_error) [] text
          ≡ some (rsp, rest)
        → let r =
            wait_response driver incoming [] match_1 match_2 match_3 millis match_ok match_error
              s in
          (r.0 ≡ rsp) × At r.1 rest
    wait_at match_1 match_2 match_3 millis match_ok match_error s text rsp rest at e =
        let r =
          wait_response_lem driver incoming [] match_1 match_2 match_3 millis match_ok match_error s
            law (λ held process h. elim h [ ]) at.ready in
        let result =
          wait_response driver incoming [] match_1 match_2 match_3 millis match_ok match_error s in
        let targets = candidates match_1 match_2 match_3 match_ok match_error in
        let text_is : text ≡ r.got ++ incoming result.1.uart = sym at.line ∙ r.split in
        let (same, left) =
          Scan-answer_of targets (incoming result.1.uart) rsp rest (rw (at.emptied) at r.scan)
            (r.complete prompt) (ap (λ (t : Text). answer_of targets [] t) (sym text_is) ∙ e) in
        (same, record { ready = r.ready; emptied = r.emptied; line = left })

    -- The same from a ring that holds a character.
    pub wait_held :
        (match_1 match_2 match_3 : Option Text) (millis : ℕ) (match_ok match_error : Bool)
        (s : ModemSerialEsp U) (c : ℕ) (text : Text) (rsp : Response) (rest : Text)
        → Holding s c text
        → answer_of (candidates match_1 match_2 match_3 match_ok match_error) (c ∷ []) text
          ≡ some (rsp, rest)
        → let r =
            wait_response driver incoming [] match_1 match_2 match_3 millis match_ok match_error
              s in
          (r.0 ≡ rsp) × At r.1 rest
    wait_held match_1 match_2 match_3 millis match_ok match_error s c text rsp rest at e =
        let r =
          wait_response_lem driver incoming [] match_1 match_2 match_3 millis match_ok match_error s
            law (λ held process h. elim h [ ]) at.ready in
        let result =
          wait_response driver incoming [] match_1 match_2 match_3 millis match_ok match_error s in
        let targets = candidates match_1 match_2 match_3 match_ok match_error in
        let text_is : text ≡ r.got ++ incoming result.1.uart = sym at.line ∙ r.split in
        let (same, left) =
          Scan-answer_of targets (incoming result.1.uart) rsp rest (rw (at.held) at r.scan)
            (r.complete prompt)
            (ap (λ (t : Text). answer_of targets (c ∷ []) t) (sym text_is) ∙ e) in
        (same, record { ready = r.ready; emptied = r.emptied; line = left })

    -- When the line brings nothing, the answer is a timeout.
    pub wait_silent :
        (match_1 match_2 match_3 : Option Text) (millis : ℕ) (match_ok match_error : Bool)
        (s : ModemSerialEsp U)
        → At s []
        → let r =
            wait_response driver incoming [] match_1 match_2 match_3 millis match_ok match_error
              s in
          (r.0 ≡ Response.timeout) × At r.1 []
    wait_silent match_1 match_2 match_3 millis match_ok match_error s at =
        let r =
          wait_response_lem driver incoming [] match_1 match_2 match_3 millis match_ok match_error s
            law (λ held process h. elim h [ ]) at.ready in
        let later =
          incoming
            (wait_response driver incoming [] match_1 match_2 match_3 millis match_ok match_error
              s).1.uart in
        let (none_got, none_left) = no_text r.got later (sym r.split ∙ at.line) in
        (
          Scan-nothing r.scan none_got,
          record { ready = r.ready; emptied = r.emptied; line = none_left },
        )
      where
        no_text : (xs ys : Text) → xs ++ ys ≡ [] → (xs ≡ []) × (ys ≡ [])
        no_text [] ys e = (refl, e)
        no_text (x ∷ xs) ys e = absurd (cc e)

    pub print_at :
        (beyond : Text) (item : Item) (s : ModemSerialEsp U) (text : Text)
        → At s text
        → At (print_item driver beyond item s) text
    unfolding print_item flush write
    print_at beyond item s text at = record {
      ready = at.ready;
      emptied = at.emptied;
      line = law.wait_keeps _ _ ∙ law.write_keeps _ _ ∙ at.line;
    }

    -- find takes the text up to and with the first terminator.
    find_at :
        (t : ℕ) (before rest : Text) (s : ModemSerialEsp U)
        → IsReady s.buf
        → length (contents s.buf) ≤ 1
        → view incoming s ≡ before ++ t ∷ rest
        → Absent t before
        → ((find driver incoming t s).0 ≡ true) × At (find driver incoming t s).1 rest
    find_at t before rest s ready short e absent =
        let h = find_lem driver incoming t s law ready in
        let (found, s') = find driver incoming t s in
        elim (Bool-cases found) [
          | inr no_found ↦
              let over = h.complete prompt no_found in
              let gone : Absent t h.got = rw no_found at h.finds in
              let all : before ++ t ∷ rest ≡ h.got =
                sym e ∙ h.split ∙ ap (λ (x : Text). h.got ++ x) over ∙ append-nil h.got in
              absurd (Absent-not t before rest (subst (λ (x : Text). Absent t x) (sym all) gone))
          | inl yes_found ↦
              let f : Finds t h.got true = rw yes_found at h.finds in
              let (before', got_is, absent') = f in
              let parts : before ++ t ∷ rest ≡ before' ++ t ∷ view incoming s' =
                sym e
                ∙ h.split
                ∙ ap (λ (x : Text). x ++ view incoming s') got_is
                ∙ append_assoc before' (t ∷ []) (view incoming s') in
              let left : rest ≡ view incoming s' =
                split_once t before before' rest (view incoming s') absent absent' parts in
              let empty : contents s'.buf ≡ [] = elim h.drained [
                | inl z ↦ z
                | inr same ↦ no_bytes (contents s'.buf) (
                    omega (
                      arith,
                      ap (λ (x : Text). length x) h.split,
                      ap (λ (x : Text). length x) got_is,
                      length-append before' (t ∷ []),
                      length-append h.got (view incoming s'),
                      length-append (contents s.buf) (incoming s.uart),
                      length-append (contents s'.buf) (incoming s'.uart),
                      ap (λ (u : U). length (incoming u)) same,
                    ))
              ] in
              (
                yes_found,
                record {
                  ready = h.ready;
                  emptied = empty;
                  line = sym (left ∙ ap (λ (x : Text). x ++ incoming s'.uart) empty);
                },
              )
        ]

    -- The same with an empty ring, and with one that holds a character.
    pub find_next :
        (t : ℕ) (before rest : Text) (s : ModemSerialEsp U)
        → At s (before ++ t ∷ rest)
        → Absent t before
        → ((find driver incoming t s).0 ≡ true) × At (find driver incoming t s).1 rest
    find_next t before rest s at absent =
        find_at t before rest s at.ready (omega (arith, ap (λ (x : Text). length x) at.emptied))
          (ap (λ (x : Text). x ++ incoming s.uart) at.emptied ∙ at.line) absent

    pub find_held :
        (t c : ℕ) (before text rest : Text) (s : ModemSerialEsp U)
        → Holding s c text
        → c ∷ text ≡ before ++ t ∷ rest
        → Absent t before
        → ((find driver incoming t s).0 ≡ true) × At (find driver incoming t s).1 rest
    find_held t c before text rest s at e absent =
        find_at t before rest s at.ready (omega (arith, ap (λ (x : Text). length x) at.held))
          (ap (λ (x : Text). x ++ incoming s.uart) at.held ∙ ap (λ (x : Text). c ∷ x) at.line ∙ e)
          absent

    -- parseInt takes a number and leaves the character behind it in the ring.
    pub parse_at :
        (z : ℤ) (t : ℕ) (rest : Text) (s : ModemSerialEsp U)
        → IsInt32 z
        → strchr (codes "0123456789") t ≡ false
        → At s (show_int z ++ t ∷ rest)
        → ((parse_int driver incoming s).0 ≡ z) × Holding (parse_int driver incoming s).1 t rest
    unfolding parse_int
    parse_at z t rest s small ends at =
        let p =
          parse_int_lem driver incoming s z [] t rest law prompt at.ready small tt ends at.line in
        (
          p.0,
          record {
            ready = (parse_number_lem int_format driver incoming s law at.ready).ready;
            held = p.1;
            line = p.2;
          },
        )

    -- readBytes of one character.
    pub read_at :
        (c : ℕ) (rest : Text) (s : ModemSerialEsp U)
        → At s (c ∷ rest)
        → ((read_bytes driver (pos 1) s).0 ≡ (1, c ∷ [])) × At (read_bytes driver (pos 1) s).1 rest
    unfolding read_bytes read_byte first_byte bytes_read bytes_stored
    read_at c rest s at =
        let used : get_used s.buf ≡ 0 =
          omega (arith, length-contents s.buf, ap (λ (x : Text). length x) at.emptied) in
        let nothing : ltb 0 (get_used s.buf) ≡ false = ground arith in
        rw nothing (split (driver.read_bytes 1 (driver.to_ticks default_timeout) s.uart) refl)
      where
        wait : ℕ
        wait = driver.to_ticks default_timeout

        silence :
            (r : Option Text × U)
            → driver.read_bytes 1 wait s.uart ≡ r
            → first_byte r.0 ≡ none
            → incoming s.uart ≡ incoming r.1
            → ⊥
        silence r e none_came keep =
            let over =
              prompt.delivers wait s.uart
                (ap (λ (p : Option Text × U). first_byte p.0) e ∙ none_came) in
            let over' = ap (λ (p : Option Text × U). incoming p.1) (sym e) ∙ over in
            cc (at.line, keep, over')

        split :
            (r : Option Text × U)
            → driver.read_bytes 1 wait s.uart ≡ r
            → ◌≡◌ {A = ℕ × Text} ((0 + bytes_read r.0) % 2 ^ 32, [] ++ bytes_stored r.0) (1, c ∷ [])
              × At (record { uart = r.1; buf = s.buf }) rest
        split (none, u) e = absurd (silence (none, u) e refl (law.read_none 1 wait s.uart u e))
        split (some [], u) e =
            absurd (silence (some [], u) e refl (law.read_some 1 wait s.uart u [] e).0)
        split (some (b ∷ []), u) e =
            let all : c ∷ rest ≡ b ∷ incoming u =
              sym at.line ∙ (law.read_some 1 wait s.uart u (b ∷ []) e).0 in
            (
              ap (λ (x : ℕ). (1, x ∷ [])) (cc all),
              record { ready = at.ready; emptied = at.emptied; line = cc all },
            )
        split (some (b ∷ d ∷ bytes), u) e =
            let l = (law.read_some 1 wait s.uart u (b ∷ d ∷ bytes) e).1 in absurd (omega arith)
