-- ===== src/Transport/Esp/Bytes/Reads.antt =====
-- What find, readBytesUntil and readBytes of src/modem_serial_esp.h take off the text still to be
-- read, and what they return.
use a76xx.Prelude.{
  ℕ, suc, refl, ◌<◌, ◌≤◌, ◌≡◌, ◌≢◌, sym, ap, ◌∙◌, ◌⊎◌, inl, inr, Bool, true, false, [], ◌∷◌, ◌++◌,
  length, length-append, append_assoc, append-nil, subst, ==_iff, ◌==◌, arith, Bool-cases,
}
use a76xx.Prelude.Int.{ℤ, uint32}
use a76xx.Ring.Contents.{contents}
use a76xx.Serial.{Text}
use a76xx.Transport.Uart.{Uart, IsLawful, IsPrompt, Silent}
use a76xx.Transport.Esp.{ModemSerialEsp}
use a76xx.Transport.Esp.Scan.{IsReady}
use a76xx.Transport.Esp.Bytes.{
  each_byte, is_terminator, store_until, until_result, find, read_bytes_until,
}
use a76xx.Transport.Esp.Bytes.Stream.{view, Fed, each_byte_lem}

-- The byte does not stand in the text.
abbrev pub Absent : ℕ → Text → Type 0
Absent b [] = Unit
Absent b (c ∷ text) = (c ≢ b) × Absent b text

-- Two ends of a search in the bytes taken: the last one is the terminator, or it is not there.
abbrev pub Finds : ℕ → Text → Bool → Type 0
Finds terminator got true =
    (before : Text) × (got ≡ before ++ terminator ∷ []) × Absent terminator before
Finds terminator got false = Absent terminator got

Finds-cons :
    (terminator b : ℕ) (got : Text) (found : Bool)
    → b ≢ terminator
    → Finds terminator got found
    → Finds terminator (b ∷ got) found
Finds-cons terminator b got true h (before, e, a) = (b ∷ before, ap (λ (t : Text). b ∷ t) e, (h, a))
Finds-cons terminator b got false h a = (h, a)

find_stop :
    (terminator b : ℕ) (x : Unit {0}) (found : Bool)
    → is_terminator terminator b x ≡ inr found
    → (b ≡ terminator) × (true ≡ found)
unfolding is_terminator
find_stop terminator b x found e = elim (Bool-cases (b == terminator)) [
  | inl f ↦ ((==_iff b terminator).0 f, cc (rw f at e))
  | inr f ↦ absurd (cc (rw f at e))
]

find_on :
    (terminator b : ℕ) (x x' : Unit {0}) → is_terminator terminator b x ≡ inl x' → b ≢ terminator
unfolding is_terminator
find_on terminator b x x' e q = cc (rw ((==_iff b terminator).1 q) at e)

Fed-Finds :
    (terminator : ℕ) {x : Unit {0}} {got : Text} {o : Unit {0} ⊎ Bool}
    → Fed (is_terminator terminator) x got o
    → Finds terminator got (elim o [ inl y ↦ false | inr found ↦ found ])
Fed-Finds terminator (Fed.open_end) = tt
Fed-Finds terminator (Fed.last {x} {b} {a} e) =
    let (f, g) = find_stop terminator b x a e in rw⁻¹ g ([], ap (λ c. c ∷ []) f, tt)
Fed-Finds terminator (Fed.onward {x} {x'} {b} {got} {outcome} e h) =
    Finds-cons terminator b got _ (find_on terminator b x x' e) (Fed-Finds terminator h)

Fed-true :
    (terminator : ℕ) {x : Unit {0}} {got : Text} {o : Unit {0} ⊎ Bool}
    → Fed (is_terminator terminator) x got o
    → (found : Bool) → o ≡ inr found
    → found ≡ true
Fed-true terminator Fed.open_end found e = absurd (cc e)
Fed-true terminator (Fed.last {x} {b} {a} f) found e =
    let g = (find_stop terminator b x a f).1 in cc (e, g)
Fed-true terminator (Fed.onward f h) found e = Fed-true terminator h found e

-- What a search takes off the text still to be read: nothing off the line before the ring is empty.
-- It fails only when the ring is empty and the line silent; on a line that brings everything at once,
-- nothing is left then.
pub record Searches {U : Type 0} (driver : Uart U) (incoming : U → Text) (terminator : ℕ)
    (s : ModemSerialEsp U) (result : Bool × ModemSerialEsp U) : Type 0 where
  pub got : Text
  pub split : view incoming s ≡ got ++ view incoming result.1
  pub finds : Finds terminator got result.0
  pub ready : IsReady result.1.buf
  pub drained : (contents result.1.buf ≡ []) ⊎ (result.1.uart ≡ s.uart)
  pub silent : result.0 ≡ false → (contents result.1.buf ≡ []) × Silent driver result.1.uart
  pub complete : IsPrompt driver incoming → result.0 ≡ false → view incoming result.1 ≡ []

-- `find` always returns; it takes the text up to and with the first terminator when it answers true,
-- and a text without the terminator when it answers false, wherever the bytes are kept. It answers
-- false only when the ring is empty and the line has just given no byte; on a line that brings
-- everything at once, nothing is left then.
pub find_lem :
    {U : Type 0} (driver : Uart U) (incoming : U → Text) (terminator : ℕ) (s : ModemSerialEsp U)
    → IsLawful driver incoming
    → IsReady s.buf
    → Searches driver incoming terminator s (find driver incoming terminator s)
unfolding find
find_lem driver incoming terminator s law ready =
    let h = each_byte_lem driver law (is_terminator terminator) tt s ready in
    record {
      got = h.got;
      split = h.split;
      finds = Fed-Finds terminator h.fed;
      ready = h.ready;
      drained = h.drained;
      silent = λ q.
          failed _ (each_byte driver incoming (is_terminator terminator) tt s).0
            (λ y e. h.silent y e) (Fed-true terminator h.fed) q;
      complete = λ prompt q.
          failed _ (each_byte driver incoming (is_terminator terminator) tt s).0
            (λ y e. h.complete prompt y e) (Fed-true terminator h.fed) q;
    }
  where
    failed :
        (P : Type 0) (o : Unit {0} ⊎ Bool)
        → ((y : Unit {0}) → o ≡ inl y → P)
        → ((found : Bool) → o ≡ inr found → found ≡ true)
        → (elim o [ inl y ↦ false | inr found ↦ found ]) ≡ false
        → P
    failed P (inl y) give yes_found q = give y refl
    failed P (inr found) give yes_found q = absurd (cc (yes_found found refl, q))

-- The three ends of readBytesUntil with a buffer of `size` bytes, in terms of the bytes taken, the
-- count returned and the bytes stored: the terminator, the full buffer, and the timeout, which needs
-- `Quiet`.
pub data Stores (terminator size : ℕ) (Quiet : Type 0) : Text → ℕ → Text → Type 0 where
  terminated :
      {stored : Text}
      → length stored < size
      → Absent terminator stored
      → Stores terminator size Quiet (stored ++ terminator ∷ []) (length stored) stored
  full :
      {stored : Text}
      → length stored ≡ size
      → Absent terminator stored
      → Stores terminator size Quiet stored size stored
  timed_out :
      {stored : Text}
      → length stored < size
      → Absent terminator stored
      → Quiet
      → Stores terminator size Quiet stored 0 stored

Absent-append : (b : ℕ) (xs ys : Text) → Absent b xs → Absent b ys → Absent b (xs ++ ys)
Absent-append b [] ys h k = k
Absent-append b (x ∷ xs) ys (h, hs) k = (h, Absent-append b xs ys hs k)

store_cases :
    (terminator size b : ℕ) (stored : Text) (o : Text ⊎ (ℕ × Text))
    → store_until terminator size b stored ≡ o
    → ((b ≡ terminator) × (o ≡ inr (length stored, stored)))
      ⊎ ((b ≢ terminator) × (length (stored ++ b ∷ []) ≡ size) × (o ≡ inr (size, stored ++ b ∷ [])))
      ⊎ ((b ≢ terminator) × (length (stored ++ b ∷ []) ≢ size) × (o ≡ inl (stored ++ b ∷ [])))
unfolding store_until
store_cases terminator size b stored o e = elim (Bool-cases (b == terminator)) [
  | inl f ↦ inl ((==_iff b terminator).0 f, sym (rw f at e))
  | inr f ↦
      let other : b ≢ terminator = (λ q. cc ((==_iff b terminator).1 q, f)) in
      let n = length (stored ++ b ∷ []) in
      elim (Bool-cases (n == size)) [
        | inl g ↦ inr (inl (other, (==_iff n size).0 g, sym (rw (f, g) at e)))
        | inr g ↦ inr (inr (other, (λ q. cc ((==_iff n size).1 q, g)), sym (rw (f, g) at e)))
      ]
]

Fed-Stores :
    (terminator size : ℕ) {Quiet : Type 0} {acc got : Text} {o : Text ⊎ (ℕ × Text)}
    → Fed (store_until terminator size) acc got o
    → length acc < size
    → Absent terminator acc
    → ((stored : Text) → o ≡ inl stored → Quiet)
    → Stores terminator size Quiet (acc ++ got) (until_result o).0 (until_result o).1
unfolding until_result
Fed-Stores terminator size (Fed.open_end {x}) room absent over =
    rw (append-nil x) (Stores.timed_out room absent (over x refl))
Fed-Stores terminator size (Fed.last {x} {b} {a} e) room absent over =
    elim (store_cases terminator size b x (inr a) e) [
      | inl (f, g) ↦ let q : a ≡ (length x, x) = cc g in rw (f, q) (Stores.terminated room absent)
      | inr (inl (f, n, g)) ↦
          let q : a ≡ (size, x ++ b ∷ []) = cc g in
          rw q (Stores.full n (Absent-append terminator x (b ∷ []) absent (f, tt)))
      | inr (inr (f, n, g)) ↦ absurd (cc g)
    ]
Fed-Stores terminator size {Quiet} (Fed.onward {x} {x'} {b} {got} {outcome} e h) room absent over =
    elim (store_cases terminator size b x (inl x') e) [
      | inl (f, g) ↦ absurd (cc g)
      | inr (inl (f, n, g)) ↦ absurd (cc g)
      | inr (inr (f, n, g)) ↦
          let q : x' ≡ x ++ b ∷ [] = cc g in
          let len : length (x ++ b ∷ []) ≡ suc (length x) =
            omega (arith, length-append x (b ∷ [])) in
          let room' : length x' < size =
            rw q (elim (Nat-cases (length (x ++ b ∷ [])) size (omega arith)) [
              | inl lt ↦ lt
              | inr same ↦ absurd (n same)
            ]) in
          let absent' : Absent terminator x' =
            rw q (Absent-append terminator x (b ∷ []) absent (f, tt)) in
          subst
            (λ (t : Text).
              Stores terminator size Quiet t (until_result outcome).0 (until_result outcome).1)
            (ap (λ (t : Text). t ++ got) q ∙ append_assoc x (b ∷ []) got)
            (Fed-Stores terminator size h room' absent' over)
    ]
  where
    Nat-cases : (a c : ℕ) → a ≤ c → (a < c) ⊎ (a ≡ c)
    Nat-cases a c le = ground arith

-- What readBytesUntil takes off the text still to be read, and stores.
pub record StoresUntil {U : Type 0} (driver : Uart U) (incoming : U → Text) (terminator size : ℕ)
    (s : ModemSerialEsp U) (result : (ℕ × Text) × ModemSerialEsp U) : Type 0 where
  pub got : Text
  pub split : view incoming s ≡ got ++ view incoming result.1
  pub stores :
      Stores terminator size
        ((contents result.1.buf ≡ [])
          × Silent driver result.1.uart
          × (IsPrompt driver incoming → view incoming result.1 ≡ []))
        got
        result.0.0
        result.0.1
  pub ready : IsReady result.1.buf

-- readBytesUntil with a buffer of `len` bytes, at least one, always returns. It stores the bytes up
-- to the terminator, which it takes too, and returns their number; or it fills the buffer; or it
-- returns 0, and then the ring is empty and the line has just given no byte, and on a line that brings
-- everything at once nothing is left. It takes no more than these bytes, and never stores more than
-- `len`, nor the terminator.
pub read_bytes_until_lem :
    {U : Type 0} (driver : Uart U) (incoming : U → Text) (terminator : ℕ) (len : ℤ)
    (s : ModemSerialEsp U)
    → IsLawful driver incoming
    → IsReady s.buf
    → 0 < uint32 len
    → StoresUntil driver incoming terminator
        (uint32 len)
        s
        (read_bytes_until driver incoming terminator len s)
unfolding read_bytes_until
read_bytes_until_lem driver incoming terminator len s law ready room =
    let h = each_byte_lem driver law (store_until terminator (uint32 len)) [] s ready in
    record {
      got = h.got;
      split = h.split;
      stores = Fed-Stores terminator (uint32 len) h.fed room tt (λ y q.
          let (emptied, quiet) = h.silent y q in (emptied, quiet, λ prompt. h.complete prompt y q));
      ready = h.ready;
    }
