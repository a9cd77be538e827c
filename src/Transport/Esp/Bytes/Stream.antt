-- ===== src/Transport/Esp/Bytes/Stream.antt =====
-- src/modem_serial_esp.h hides from its callers where a byte is kept: the ring and the UART make up
-- one text still to be read, and the functions that read take bytes from its front.
use a76xx.Prelude.{
  ℕ, suc, ◌≡◌, refl, sym, ap, ◌∙◌, ◌⊎◌, inl, inr, Option, none, some, [], ◌∷◌, ◌++◌, length,
  append_assoc, append-nil, subst, arith,
}
use a76xx.Prelude.Loop.{Step, Round, loop_lem, returned}
use a76xx.Ring.{ByteRingBuf, get_used, pop}
use a76xx.Ring.Inv.{pop-IsValid, size-pop}
use a76xx.Ring.Contents.{contents, length-contents}
use a76xx.Ring.Read.{peek_pop_lem, uncons}
use a76xx.Serial.{Text}
use a76xx.Transport.Uart.{Uart, IsLawful, IsPrompt, Silent, read_byte, read_byte_lem}
use a76xx.Transport.Esp.{ModemSerialEsp}
use a76xx.Transport.Esp.Scan.{IsReady}
use a76xx.Transport.Esp.Bytes.{took, ring_round, uart_round, then_uart, each_byte, default_timeout}

-- What the transport has still to give.
abbrev pub view : {U : Type 0} → (U → Text) → ModemSerialEsp U → Text
view incoming s = contents s.buf ++ incoming s.uart

-- `Fed body x got outcome`: from `x` on, the body gets the bytes `got` one by one, and either returns
-- at the last one or is still going on.
pub data Fed {X A : Type 0} (body : ℕ → X → X ⊎ A) : X → Text → X ⊎ A → Type 0 where
  open_end : {x : X} → Fed body x [] (inl x)
  last : {x : X} {b : ℕ} {a : A} → body b x ≡ inr a → Fed body x (b ∷ []) (inr a)
  onward :
      {x x' : X} {b : ℕ} {got : Text} {outcome : X ⊎ A}
      → body b x ≡ inl x'
      → Fed body x' got outcome
      → Fed body x (b ∷ got) outcome

Sum-cases : {X A : Type 0} (o : X ⊎ A) → ((x : X) × (o ≡ inl x)) ⊎ ((a : A) × (o ≡ inr a))
Sum-cases (inl x) = inl (x, refl)
Sum-cases (inr a) = inr (a, refl)

-- `source s ≡ got ++ source s'` for the part `source` of what is still to be read that a loop takes
-- bytes from; what the loop keeps, and what holds when the source gave no more.
record Gives {U X A : Type 0} (source : ModemSerialEsp U → Text)
    (Kept Ended : ModemSerialEsp U → Type 0) (body : ℕ → X → X ⊎ A) (xs : X × ModemSerialEsp U)
    (result : (X ⊎ A) × ModemSerialEsp U) : Type 0 where
  got : Text
  split : source xs.1 ≡ got ++ source result.1
  fed : Fed body xs.0 got result.0
  kept : Kept result.1
  ended : (x : X) → result.0 ≡ inl x → Ended result.1

module _ {U X A : Type 0} (source : ModemSerialEsp U → Text)
    (Kept Ended : ModemSerialEsp U → Type 0) (body : ℕ → X → X ⊎ A) where
  abbrev Feeds :
      X × ModemSerialEsp U → Step (X × ModemSerialEsp U) ((X ⊎ A) × ModemSerialEsp U) → Type 0
  Feeds xs step =
      Round (λ ys. length (source ys.1)) (λ ys. Kept ys.1)
        (λ ys a. Gives source Kept Ended body ys a) xs step

  -- A round that found no byte at the source, or took one.
  took_lem :
      (x : X) (s s' : ModemSerialEsp U) (val : Option ℕ)
      → Kept s'
      → ((val ≡ none) × (source s ≡ source s') × Ended s')
        ⊎ ((b : ℕ) × (val ≡ some b) × (source s ≡ b ∷ source s'))
      → Feeds (x, s) (took body x s' val)
  unfolding took
  took_lem x s s' val kept (inl (e, keep, over)) = rw e (
      inr (
        _,
        refl,
        record { got = []; split = keep; fed = Fed.open_end; kept = kept; ended = λ y q. over },
      ))
  took_lem x s s' val kept (inr (b, e, take)) = rw e (elim (Sum-cases (body b x)) [
    | inl (x', f) ↦
        rw (f, took)
          (inl (
            (x', s'),
            refl,
            kept,
            omega (arith, ap (λ (l : Text). length l) take),
            λ a r. record {
              got = b ∷ r.got;
              split = take ∙ ap (λ (l : Text). b ∷ l) r.split;
              fed = Fed.onward f r.fed;
              kept = r.kept;
              ended = r.ended;
            },
          ))
    | inr (a, f) ↦
        rw (f, took)
          (inr (
            _,
            refl,
            record {
              got = b ∷ [];
              split = take;
              fed = Fed.last f;
              kept = kept;
              ended = λ y q. absurd (inr≢inl q);
            },
          ))
  ])
    where
      inr≢inl : {a : A} {y : X} → inr a ≡ inl y → ⊥
      inr≢inl q = cc q

pop-IsReady : {r : ByteRingBuf} → IsReady r → IsReady (pop r).1
pop-IsReady {r} v = record { valid = pop-IsValid v.valid; sized = size-pop r ∙ v.sized }

uncons-cases :
    (xs : Text)
    → (((uncons xs).0 ≡ none) × (xs ≡ (uncons xs).1) × ((uncons xs).1 ≡ []))
      ⊎ ((b : ℕ) × ((uncons xs).0 ≡ some b) × (xs ≡ b ∷ (uncons xs).1))
uncons-cases [] = inl (refl, refl, refl)
uncons-cases (b ∷ xs) = inr (b, refl, refl)

pop-cases :
    {r : ByteRingBuf}
    → IsReady r
    → (((pop r).0 ≡ none) × (contents r ≡ contents (pop r).1) × (contents (pop r).1 ≡ []))
      ⊎ ((b : ℕ) × ((pop r).0 ≡ some b) × (contents r ≡ b ∷ contents (pop r).1))
pop-cases {r} v = let l = peek_pop_lem v.valid in rw (l.1, l.2) (uncons-cases (contents r))

module _ {U X A : Type 0} (driver : Uart U) {incoming : U → Text} (law : IsLawful driver incoming)
    (body : ℕ → X → X ⊎ A) where
  ring_lem :
      (u : U) (x : X) (s : ModemSerialEsp U)
      → IsReady s.buf × (s.uart ≡ u)
      → Feeds
          (λ t. contents t.buf)
          (λ t. IsReady t.buf × (t.uart ≡ u))
          (λ t. contents t.buf ≡ [])
          body
          (x, s)
          (ring_round body (x, s))
  unfolding ring_round
  ring_lem u x s (ready, same) =
      took_lem _ _ _ body x s (record s { buf = (pop s.buf).1 }) (pop s.buf).0
        (pop-IsReady ready, same) (pop-cases ready)

  uart_lem :
      (r : ByteRingBuf) (x : X) (s : ModemSerialEsp U)
      → IsReady r × (s.buf ≡ r)
      → Feeds
          (λ t. incoming t.uart)
          (λ t. IsReady r × (t.buf ≡ r))
          (λ t. Silent driver t.uart × (IsPrompt driver incoming → incoming t.uart ≡ []))
          body
          (x, s)
          (uart_round driver body (x, s))
  unfolding uart_round
  uart_lem r x s (ready, same) =
      let wait = driver.to_ticks default_timeout in
      took_lem _ _ _ body x s (record s { uart = (read_byte driver wait s.uart).1 })
        (read_byte driver wait s.uart).0 (ready, same)
        (elim (read_byte_lem driver law wait s.uart) [
          | inl (e, keep) ↦ inl (
            e,
            keep,
            (
              record { wait = wait; asked = s.uart; nothing = e; left = refl },
              λ prompt. prompt.delivers wait s.uart e,
            ),
          )
          | inr found ↦ inr found
        ])

continue_feeding :
    {X A : Type 0} {body : ℕ → X → X ⊎ A} {x x' : X} {o o' : X ⊎ A} {got got' : Text}
    → Fed body x got o
    → o ≡ inl x'
    → Fed body x' got' o'
    → Fed body x (got ++ got') o'
continue_feeding {X} {A} {body} {o' = o'} {got' = got'} (Fed.open_end {x}) e g =
    subst (λ y. Fed body y got' o') (sym (inl_injective e)) g
  where
    inl_injective : {y z : X} → ◌≡◌ {A = X ⊎ A} (inl y) (inl z) → y ≡ z
    inl_injective q = cc q
continue_feeding (Fed.last f) e g = absurd (cc e)
continue_feeding (Fed.onward f h) e g = Fed.onward f (continue_feeding h e g)

joined :
    (a0 g a1 a2 i0 h i2 : Text)
    → a0 ≡ g ++ a1
    → a1 ≡ []
    → a2 ≡ []
    → i0 ≡ h ++ i2
    → a0 ++ i0 ≡ g ++ h ++ (a2 ++ i2)
joined a0 g a1 a2 i0 h i2 e e1 e2 f =
    ap (λ (t : Text). t ++ i0) (e ∙ ap (λ (t : Text). g ++ t) e1 ∙ append-nil g)
    ∙ ap (λ (t : Text). g ++ t) f
    ∙ sym (append_assoc g h i2)
    ∙ ap (λ (t : Text). g ++ h ++ (t ++ i2)) (sym e2)

-- The function took `got` off what was still to be read, byte by byte, and leaves a sound ring. It
-- takes nothing off the line before the ring is empty. Unless it returns, it goes on until the ring is
-- empty and the line silent; on a line that brings everything at once, nothing is left then.
pub record Hands {U X A : Type 0} (driver : Uart U) (incoming : U → Text) (body : ℕ → X → X ⊎ A)
    (x : X) (s : ModemSerialEsp U) (result : (X ⊎ A) × ModemSerialEsp U) : Type 0 where
  pub got : Text
  pub split : view incoming s ≡ got ++ view incoming result.1
  pub fed : Fed body x got result.0
  pub ready : IsReady result.1.buf
  pub drained : (contents result.1.buf ≡ []) ⊎ (result.1.uart ≡ s.uart)
  pub silent :
      (y : X) → result.0 ≡ inl y → (contents result.1.buf ≡ []) × Silent driver result.1.uart
  pub complete : IsPrompt driver incoming → (y : X) → result.0 ≡ inl y → view incoming result.1 ≡ []

module _ {U X A : Type 0} (driver : Uart U) {incoming : U → Text} (law : IsLawful driver incoming)
    (body : ℕ → X → X ⊎ A) where
  second_loop :
      (x : X) (s : ModemSerialEsp U) (first : (X ⊎ A) × ModemSerialEsp U)
      → Gives
          (λ t. contents t.buf)
          (λ t. IsReady t.buf × (t.uart ≡ s.uart))
          (λ t. contents t.buf ≡ [])
          body
          (x, s)
          first
      → Hands driver incoming body x s (then_uart driver incoming body first)
  unfolding then_uart returned
  second_loop x s (inr a, s1) g = record {
    got = g.got;
    split = rw g.split (
        append_assoc g.got (contents s1.buf) (incoming s.uart)
        ∙ ap (λ (u : U). g.got ++ (contents s1.buf ++ incoming u)) (sym g.kept.1));
    fed = g.fed;
    ready = g.kept.0;
    drained = inr g.kept.1;
    silent = λ y q. absurd (cc q);
    complete = λ prompt y q. absurd (cc q);
  }
  second_loop x s (inl x1, s1) g =
      let (o, e, h) =
        loop_lem (uart_round driver body) _ _ _
          (λ ys good. uart_lem driver law body s1.buf ys.0 ys.1 good)
          (suc (length (incoming s1.uart))) (x1, s1) (omega arith) (g.kept.0, refl) in
      rw e record {
        got = g.got ++ h.got;
        split =
            joined (contents s.buf) g.got (contents s1.buf) (contents o.1.buf) (incoming s.uart)
              h.got (incoming o.1.uart) g.split (g.ended x1 refl)
              (ap (λ r. contents r) h.kept.1 ∙ g.ended x1 refl)
              (ap incoming (sym g.kept.1) ∙ h.split);
        fed = continue_feeding g.fed refl h.fed;
        ready = subst (λ r. IsReady r) (sym h.kept.1) g.kept.0;
        drained = inl (ap (λ r. contents r) h.kept.1 ∙ g.ended x1 refl);
        silent = λ y q. (ap (λ r. contents r) h.kept.1 ∙ g.ended x1 refl, (h.ended y q).0);
        complete = λ prompt y q.
            ap (λ (t : Text). t ++ incoming o.1.uart)
              (ap (λ r. contents r) h.kept.1 ∙ g.ended x1 refl)
            ∙ (h.ended y q).1 prompt;
      }

  -- The two loops take the bytes of the ring and then those of the UART off one text.
  pub each_byte_lem :
      (x : X) (s : ModemSerialEsp U)
      → IsReady s.buf
      → Hands driver incoming body x s (each_byte driver incoming body x s)
  unfolding each_byte returned
  each_byte_lem x s ready =
      let (first, e, g) =
        loop_lem (ring_round body) _ _ _ (λ ys good. ring_lem driver law body s.uart ys.0 ys.1 good)
          (suc (get_used s.buf)) (x, s) (omega (arith, length-contents s.buf)) (ready, refl) in
      rw e (second_loop x s first g)
