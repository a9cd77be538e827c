-- ===== src/Clients/Gnss/Stream.antt =====
-- enableNMEAStream and disableNMEAStream of src/clients/gnss.h: the handlers that one registers the
-- other takes away.
use a76xx.Prelude.{
  ℕ, ◌+◌, ◌≤◌, ◌≡◌, ◌≢◌, refl, sym, ap, ◌∙◌, ◌⊎◌, inl, inr, Bool, true, false, List, [], ◌∷◌, ◌++◌,
  append-nil, append_assoc, length, ◌==◌, ==_iff, Bool-cases, arith,
}
use a76xx.Serial.Handlers.{
  Handlers, active, erase, register_event_handler, de_register_event_handler,
  register_event_handler_lem, de_register_event_handler_lem, register_event_handler_bounds,
  de_register_event_handler_bounds,
}
use a76xx.Prelude.Int.{ℤ, is_zero}
use a76xx.Serial.{ModemSerial, Cmd, pure}
use a76xx.Commands.Gnss.{select_output_port, enable_nmea_output, set_nmea_sentence, set_nmea_rate}
use a76xx.Clients.Gnss.{
  Queue, GnssClient, register_all, de_register_all, checked, with_handlers, exhausted,
  enable_nmea_stream, disable_nmea_stream,
}

-- The handler is not among the others.
abbrev pub NotIn : ℕ → List ℕ → Type 0
NotIn a [] = Unit
NotIn a (x ∷ xs) = (x ≢ a) × NotIn a xs

abbrev pub NoneIn : List ℕ → List ℕ → Type 0
NoneIn [] xs = Unit
NoneIn (a ∷ addresses) xs = NotIn a xs × NoneIn addresses xs

erase_behind : (a : ℕ) (xs ys : List ℕ) → NotIn a xs → erase a (xs ++ a ∷ ys) ≡ xs ++ ys
unfolding erase
erase_behind a [] ys h = rw ((==_iff a a).1 refl) refl
erase_behind a (x ∷ xs) ys (h, hs) = elim (Bool-cases (x == a)) [
  | inl e ↦ absurd (h ((==_iff x a).0 e))
  | inr e ↦ rw e (ap (λ t. x ∷ t) (erase_behind a xs ys hs))
]

register_all_lem :
    (addresses : List ℕ) (h : Handlers)
    → h.num + length addresses ≤ length h.table
    → length h.table ≤ 255
    → (active (register_all addresses h) ≡ active h ++ addresses)
      × (length (register_all addresses h).table ≡ length h.table)
      × ((register_all addresses h).num ≡ h.num + length addresses)
unfolding register_all
register_all_lem [] h fits small = (sym (append-nil (active h)), refl, omega arith)
register_all_lem (a ∷ addresses) h fits small =
    let h1 = register_event_handler h a in
    let (len, num) = register_event_handler_bounds h a (omega arith) in
    let (e, f, g) = register_all_lem addresses h1 (omega arith) (omega arith) in
    (
      e
          ∙ ap (λ t. t ++ addresses) (register_event_handler_lem h a (omega arith) small)
          ∙ append_assoc (active h) (a ∷ []) addresses,
      f ∙ len,
      g ∙ omega arith,
    )

de_register_all_lem :
    (junk : ℕ) (addresses : List ℕ) (h : Handlers) (xs : List ℕ)
    → active h ≡ xs ++ addresses
    → h.num ≤ length h.table
    → NoneIn addresses xs
    → active (de_register_all junk addresses h) ≡ xs
unfolding de_register_all
de_register_all_lem junk [] h xs e fits new = e ∙ append-nil xs
de_register_all_lem junk (a ∷ addresses) h xs e fits (here, there) =
    let h1 = de_register_event_handler junk h a in
    let (len, num) = de_register_event_handler_bounds junk a h in
    let f : active h1 ≡ xs ++ addresses =
      de_register_event_handler_lem junk a h fits
      ∙ ap (λ t. erase a t) e
      ∙ erase_behind a xs addresses here in
    de_register_all_lem junk addresses h1 xs f (omega arith) there

-- The handlers in use behind both loops.
de_register_all-register_all :
    (junk : ℕ) (addresses : List ℕ) (h : Handlers)
    → h.num + length addresses ≤ length h.table
    → length h.table ≤ 255
    → NoneIn addresses (active h)
    → active (de_register_all junk addresses (register_all addresses h)) ≡ active h
de_register_all-register_all junk addresses h fits small new =
    let (e, len, num) = register_all_lem addresses h fits small in
    de_register_all_lem junk addresses (register_all addresses h) (active h) e (omega arith) new

module _ {S F Q : Type 0} (serial : ModemSerial S F) (queue : Queue Q) where
  checked_handlers :
      (m : Cmd S ℤ) (rest : Cmd (GnssClient S Q) Bool) (g : GnssClient S Q)
      → ((g' : GnssClient S Q) → (rest g').1.handlers ≡ g'.handlers)
      → (checked serial queue m rest g).1.handlers ≡ g.handlers
  unfolding checked
  checked_handlers m rest g keep = elim (Bool-cases (is_zero (m g.session.port).0)) [
    | inl e ↦ rw e (keep _)
    | inr e ↦ rw e refl
  ]

  -- What enableNMEAStream leaves in the table of handlers.
  enable_handlers :
      (addresses : List ℕ) (rate_hz mask : ℕ) (g : GnssClient S Q)
      → let (started, g1) = enable_nmea_stream serial queue addresses rate_hz mask g in
        ((is_zero (select_output_port serial true true g.session.port).0 ≡ true)
          × (g1.handlers ≡ register_all addresses g.handlers))
        ⊎ ((is_zero (select_output_port serial true true g.session.port).0 ≡ false)
            × (started ≡ false)
            × (g1.handlers ≡ g.handlers))
  unfolding enable_nmea_stream checked with_handlers
  enable_handlers addresses rate_hz mask g =
      let (code, s) = select_output_port serial true true g.session.port in
      elim (Bool-cases (is_zero code)) [
        | inl e ↦ rw e (
            inl (
              refl,
              checked_handlers (enable_nmea_output serial true)
                  (checked serial queue (set_nmea_sentence serial mask)
                    (checked serial queue (set_nmea_rate serial rate_hz) (pure true)))
                  _
                  (λ g2.
                    checked_handlers (set_nmea_sentence serial mask)
                      (checked serial queue (set_nmea_rate serial rate_hz) (pure true)) g2
                      (λ g3.
                        checked_handlers (set_nmea_rate serial rate_hz) (pure true) g3
                          (λ g4. refl))),
            ))
        | inr e ↦ rw e (inr (refl, refl, refl))
      ]

  exhausted_handlers :
      (exhaust : Bool) (g : GnssClient S Q)
      → ((exhausted serial queue exhaust g).0 ≡ true)
        × ((exhausted serial queue exhaust g).1.handlers ≡ g.handlers)
  unfolding exhausted
  exhausted_handlers true g = (refl, refl)
  exhausted_handlers false g = (refl, refl)

  -- What disableNMEAStream leaves in it.
  disable_handlers :
      (junk : ℕ) (addresses : List ℕ) (exhaust : Bool) (g : GnssClient S Q)
      → let (stopped, g1) = disable_nmea_stream serial queue junk addresses exhaust g in
        ((is_zero (enable_nmea_output serial false g.session.port).0 ≡ true)
          × (stopped ≡ true)
          × (g1.handlers ≡ de_register_all junk addresses g.handlers))
        ⊎ ((is_zero (enable_nmea_output serial false g.session.port).0 ≡ false)
            × (stopped ≡ false)
            × (g1.handlers ≡ g.handlers))
  unfolding disable_nmea_stream checked with_handlers
  disable_handlers junk addresses exhaust g =
      let (code, s) = enable_nmea_output serial false g.session.port in
      elim (Bool-cases (is_zero code)) [
        | inl e ↦
            let (yes_true, kept) = exhausted_handlers exhaust (record g {
              session = record { last_error = g.session.last_error; port = s };
              handlers = de_register_all junk addresses g.handlers;
            }) in
            rw e (inl (refl, yes_true, kept))
        | inr e ↦ rw e (inr (refl, refl, refl))
      ]

  -- enableNMEAStream registers all handlers of the client behind those in use once its first command
  -- has succeeded, whatever becomes of the later ones, and none when it fails. disableNMEAStream
  -- behind it takes all of them away, and leaves the handlers in use as they were at first, in their
  -- order, when its command succeeds; it succeeds exactly then, and otherwise leaves the table alone.
  -- The table has room for the handlers, and none of them was in it.
  pub disable_nmea_stream-enable_nmea_stream :
      (junk : ℕ) (addresses : List ℕ) (rate_hz mask : ℕ) (exhaust : Bool) (g : GnssClient S Q)
      → g.handlers.num + length addresses ≤ length g.handlers.table
      → length g.handlers.table ≤ 255
      → NoneIn addresses (active g.handlers)
      → let (started, g1) = enable_nmea_stream serial queue addresses rate_hz mask g in
        let (stopped, g2) = disable_nmea_stream serial queue junk addresses exhaust g1 in
        ((is_zero (select_output_port serial true true g.session.port).0 ≡ false)
          × (started ≡ false)
          × (g1.handlers ≡ g.handlers))
        ⊎ ((is_zero (select_output_port serial true true g.session.port).0 ≡ true)
            × (active g1.handlers ≡ active g.handlers ++ addresses)
            × (((is_zero (enable_nmea_output serial false g1.session.port).0 ≡ true)
                  × (stopped ≡ true)
                  × (active g2.handlers ≡ active g.handlers))
                ⊎ ((is_zero (enable_nmea_output serial false g1.session.port).0 ≡ false)
                    × (stopped ≡ false)
                    × (g2.handlers ≡ g1.handlers))))
  disable_nmea_stream-enable_nmea_stream junk addresses rate_hz mask exhaust g fits small new =
      let g1 = (enable_nmea_stream serial queue addresses rate_hz mask g).1 in
      elim (enable_handlers addresses rate_hz mask g) [
        | inr failed ↦ inl failed
        | inl (e, registered) ↦ inr (
          e,
          ap (λ t. active t) registered ∙ (register_all_lem addresses g.handlers fits small).0,
          elim (disable_handlers junk addresses exhaust g1) [
            | inr failed ↦ inr failed
            | inl (f, stopped, gone) ↦ inl (
              f,
              stopped,
              ap (λ t. active t) gone
                  ∙ ap (λ t. active (de_register_all junk addresses t)) registered
                  ∙ de_register_all-register_all junk addresses g.handlers fits small new,
            )
          ],
        )
      ]
