-- ===== src/Clients/Mqtt/Message.antt =====
-- The message that src/clients/mqtt.cpp reads from the module.
use a76xx.Prelude.{
  ℕ, suc, ◌+◌, ◌-◌, ◌<◌, ◌≤◌, ltb, leb, Option, none, some, [], ◌∷◌, ◌++◌, length, drop, copy_at,
  length-copy_at, true, false, ◌≡◌, ◌≢◌, ◌↔◌, refl, ap, sym, ◌∙◌, inl, inr, Bool-cases, arith,
}
use a76xx.Prelude.Int.{pos}
use a76xx.Serial.{Text, ModemSerial}
use a76xx.Clients.Sms.Receive.{store}
use a76xx.Clients.Mqtt.{read_field}

terminated :
    (old text : Text)
    → length text < length old
    → copy_at (copy_at old 0 text) (length text) (0 ∷ []) ≡ text ++ 0 ∷ drop (suc (length text)) old
terminated [] text h = absurd (omega arith)
terminated (x ∷ []) [] h = refl
terminated (x ∷ y ∷ old) [] h = refl
terminated (x ∷ old) (c ∷ text) h = ap (λ t. c ∷ t) (terminated old text (omega arith))

-- A write that fits, and one that does not.
store_inside :
    {A : Type 0} (array : Text) (off : ℕ) (src : Text) (rest : Text → Option A)
    → off + length src ≤ length array
    → store array off src rest ≡ rest (copy_at array off src)
unfolding store
store_inside array off src rest h =
    let e : leb (off + length src) (length array) ≡ true = ground arith in rw e refl

-- Behind the end of the array no byte is stored, whatever has been written before.
store_behind :
    (array text : Text) (size : ℕ)
    → size ≡ length array
    → store array 0 text (λ field. store field size (0 ∷ []) (λ done'. some done')) ≡ none
unfolding store
store_behind array text size e = elim (Bool-cases (leb (0 + length text) (length array))) [
  | inl fits ↦
      let f : leb (size + 1) (length (copy_at array 0 text)) ≡ false =
        ground (arith, length-copy_at array 0 text) in
      rw (fits, f) refl
  | inr long ↦ rw long refl
]

some≢none : {text : Text} → ◌≢◌ {A = Option Text} (some text) none
some≢none e = cc e

module _ {S F : Type 0} (serial : ModemSerial S F)
    (bounded : (n : ℕ) (s : S) → length (serial.read_bytes (pos n) s).0.1 ≤ n) where
  inside :
      (len : ℕ) (old : Text) (s : S)
      → len < length old
      → let text = (serial.read_bytes (pos len) s).0.1 in
        (read_field serial len old s).0 ≡ some (copy_at (copy_at old 0 text) len (0 ∷ []))
  unfolding read_field
  inside len old s fits =
      let text = (serial.read_bytes (pos len) s).0.1 in
      let below : ltb len (length old) ≡ true = ground arith in
      let short = bounded len s in
      rw
        (
          below,
          store_inside old 0 text (λ field. store field len (0 ∷ []) (λ done'. some done'))
              (omega arith),
          store_inside (copy_at old 0 text) len (0 ∷ []) (λ done'. some done')
              (omega (arith, length-copy_at old 0 text)),
        )
        refl

  outside :
      (len : ℕ) (old : Text) (s : S) → length old ≤ len → (read_field serial len old s).0 ≡ none
  unfolding read_field
  outside len old s above =
      let head = (serial.read_bytes (pos (len - length old + 1)) s).0.1 in
      let s' = (serial.read_bytes (pos (len - length old + 1)) s).1 in
      let text = (serial.read_bytes (pos (length old - 1)) s').0.1 in
      let e : ltb len (length old) ≡ false = ground arith in
      rw e (elim (Bool-cases (leb (0 + length head) (length old))) [
        | inl fits ↦
            rw
              (
                store_inside old 0 head
                    (λ skipped.
                      store skipped 0 text
                        (λ field. store field (length old) (0 ∷ []) (λ done'. some done')))
                    (ground arith),
                store_behind (copy_at old 0 head) text (length old)
                    (sym (length-copy_at old 0 head)),
              )
              refl
        | inr long ↦ unfold store in rw long refl
      ])

  -- For a serial interface that gives no more bytes than asked for: a byte is stored outside of the
  -- array exactly when the announced length is not below the array's size. Otherwise, when the
  -- announced bytes arrive, the array holds them and a null character, and is left alone behind it.
  pub read_field_lem :
      (len : ℕ) (old : Text) (s : S)
      → (((read_field serial len old s).0 ≡ none) ↔ (length old ≤ len))
        × ((text : Text)
            → (serial.read_bytes (pos len) s).0 ≡ (len, text)
            → length text ≡ len
            → len < length old
            → (read_field serial len old s).0 ≡ some (text ++ 0 ∷ drop (suc len) old))
  read_field_lem len old s = (
    (
      λ e. elim (Bool-cases (ltb len (length old))) [
        | inl below ↦ absurd (some≢none (sym (inside len old s (ground arith)) ∙ e))
        | inr above ↦ ground arith
      ],
      outside len old s,
    ),
    λ text bytes all fits.
        inside len old s fits
        ∙ ap some (rw (ap (λ p. p.1) bytes, sym all) (terminated old text (omega arith))),
  )
