-- ===== src/Transport/Esp/Number/Evaluate.antt =====
-- The end of a number in parseInt and parseFloat of src/modem_serial_esp.h: the characters collected
-- in the ring are read back.
use a76xx.Prelude.{
  ℕ, ◌<◌, ◌≤◌, ◌≡◌, refl, ap, ◌∙◌, ◌⊎◌, inl, inr, true, false, Option, none, some, subst, [], ◌∷◌,
  ◌++◌, length, take, drop, min, arith, Bool-cases, ltb, ◌==◌,
}
use a76xx.Prelude.Loop.{Step, Round}
use a76xx.Ring.{ByteRingBuf, get_used, read, clear}
use a76xx.Ring.Inv.{read-IsValid, size-read}
use a76xx.Ring.Contents.{contents, length-contents, contents-clear}
use a76xx.Ring.Read.{read_lem}
use a76xx.Serial.{Text}
use a76xx.Transport.Uart.{Uart, IsPrompt, Late, Silent}
use a76xx.Transport.Esp.{ModemSerialEsp, push}
use a76xx.Transport.Esp.Scan.{IsReady, window, push-IsReady, clear-IsReady, contents-push}
use a76xx.Transport.Esp.Number.Automaton.{value_of, InNumber, Parses}
use a76xx.Transport.Esp.Number.{strchr, NumberFormat, Parser, evaluate}

module _ {N : Type 0} (format : NumberFormat N) where
  pub record ParsesFrom {U : Type 0} (driver : Uart U) (incoming : U → Text)
      (start_time timeout_ticks : ℕ) (p : Parser U) (result : N × ModemSerialEsp U) : Type 0 where
    pub got : Text
    pub split : incoming p.serial.uart ≡ got ++ incoming result.1.uart
    pub parses :
        Parses format
          (Late driver start_time timeout_ticks result.1.uart)
          (Silent driver result.1.uart)
          p.valid_number
          p.valid_chars
          (contents p.serial.buf)
          got
          result.0
          (contents result.1.buf)
    pub complete :
        IsPrompt driver incoming → contents result.1.buf ≡ [] → incoming result.1.uart ≡ []
    pub ready : IsReady result.1.buf

-- 20 bytes are read from a ring: all that it holds, or a full buffer.
collected :
    (r : ByteRingBuf)
    → IsReady r
    → IsReady (read r 20).2
      × (((length (contents r) < 20)
            × ((read r 20).0 == 20 ≡ false)
            × ((read r 20).1 ≡ contents r)
            × (contents (read r 20).2 ≡ []))
          ⊎ ((20 ≤ length (contents r)) × ((read r 20).0 == 20 ≡ true)))
collected r v =
    let l = read_lem 20 v.valid in
    let len = length-contents r in
    (
      record { valid = read-IsValid 20 v.valid; sized = size-read r 20 ∙ v.sized },
      elim (Bool-cases (ltb (length (contents r)) 20)) [
        | inl h ↦
            let k : min 20 (get_used r) ≡ length (contents r) = ground (arith, h) in
            rw (l.0, l.1, l.2, k)
              (inl (ground arith, ground arith, take_all (contents r), drop_all (contents r)))
        | inr h ↦
            let k : min 20 (get_used r) ≡ 20 = ground (arith, h) in
            rw (l.0, k) (inr (ground arith, refl))
      ],
    )
  where
    take_all : (xs : Text) → take (length xs) xs ≡ xs
    take_all [] = refl
    take_all (x ∷ xs) = ap (λ (t : Text). x ∷ t) (take_all xs)

    drop_all : (xs : Text) → drop (length xs) xs ≡ []
    drop_all [] = refl
    drop_all (x ∷ xs) = drop_all xs

-- A valid state of the loop: the ring is sound, and empty before the number.
abbrev pub Sound : {U : Type 0} → Parser U → Type 0
Sound p = IsReady p.serial.buf × (p.valid_number ≡ false → contents p.serial.buf ≡ [])

module _ {U N : Type 0} (format : NumberFormat N) (driver : Uart U) (incoming : U → Text)
    (start_time timeout_ticks : ℕ) where
  abbrev pub Works : Parser U → Step (Parser U) (N × ModemSerialEsp U) → Type 0
  Works p x =
      Round (λ q. length (incoming q.serial.uart)) (λ q. Sound q)
        (λ q a. ParsesFrom format driver incoming start_time timeout_ticks q a) p x

  pub evaluate_lem :
      (chars : Text) (s : ModemSerialEsp U) (u : U) (val : Option ℕ)
      → IsReady s.buf
      → ((val ≡ none)
          × (incoming s.uart ≡ incoming u)
          × Silent driver u
          × (IsPrompt driver incoming → incoming u ≡ []))
        ⊎ ((c : ℕ) × (val ≡ some c) × (incoming s.uart ≡ c ∷ incoming u) × (strchr chars c ≡ false))
      → Works
          (record { valid_number = true; valid_chars = chars; serial = s })
          (evaluate format s.buf u val)
  unfolding evaluate
  evaluate_lem chars s u val ready (inl (e, keep, quiet, over)) =
      let (ready', cases) = collected s.buf ready in
      rw e (elim cases [
        | inl (short, n, bytes, left) ↦
            let v : value_of format (contents s.buf) ≡ format.value (contents s.buf) =
              ground arith in
            rw (n, bytes)
              (inr (
                _,
                refl,
                record {
                  got = [];
                  split = keep;
                  parses = rw (left, ← v) (InNumber.silent quiet);
                  complete = λ prompt q. over prompt;
                  ready = ready';
                },
              ))
        | inr (long, n) ↦
            let v : value_of format (contents s.buf) ≡ format.nothing = ground arith in
            rw n (
              inr (
                _,
                refl,
                record {
                  got = [];
                  split = keep;
                  parses = rw (contents-clear (read s.buf 20).2) (
                      subst (λ n. InNumber format _ _ chars (contents s.buf) [] n []) v
                        (InNumber.silent quiet));
                  complete = λ prompt q. over prompt;
                  ready = clear-IsReady ready';
                },
              ))
      ])
  evaluate_lem chars s u val ready (inr (c, e, taken, ends)) =
      let (ready', cases) = collected s.buf ready in
      rw e (elim cases [
        | inl (short, n, bytes, left) ↦
            let v : value_of format (contents s.buf) ≡ format.value (contents s.buf) =
              ground arith in
            let w : contents (push c (read s.buf 20).2) ≡ c ∷ [] =
              contents-push c ready' ∙ ap (λ (t : Text). window (t ++ c ∷ [])) left in
            rw (n, bytes)
              (inr (
                _,
                refl,
                record {
                  got = c ∷ [];
                  split = taken;
                  parses = rw (w, ← v) (InNumber.ended ends);
                  complete = λ prompt q. absurd (cc (w, q));
                  ready = push-IsReady c ready';
                },
              ))
        | inr (long, n) ↦
            let v : value_of format (contents s.buf) ≡ format.nothing = ground arith in
            let w : contents (push c (clear (read s.buf 20).2)) ≡ c ∷ [] =
              contents-push c (clear-IsReady ready')
              ∙ ap (λ (t : Text). window (t ++ c ∷ [])) (contents-clear (read s.buf 20).2) in
            rw n (
              inr (
                _,
                refl,
                record {
                  got = c ∷ [];
                  split = taken;
                  parses = rw w (
                      subst (λ n. InNumber format _ _ chars (contents s.buf) (c ∷ []) n (c ∷ [])) v
                        (InNumber.ended ends));
                  complete = λ prompt q. absurd (cc (w, q));
                  ready = push-IsReady c (clear-IsReady ready');
                },
              ))
      ])
