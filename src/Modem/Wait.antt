-- ===== src/Modem/Wait.antt =====
-- The waiting loops of src/modem.cpp.
use mathlib.Core.Bool.{true≢false}
use a76xx.Prelude.{
  ℕ, zero, suc, ◌<◌, Bool, true, [], ◌∷◌, ◌≡◌, ◌↔◌, refl, sym, inl, inr, Bool-cases, arith,
}
use a76xx.Serial.{Response, ModemSerial, wait_0, send_cmd, txt}
use a76xx.Modem.{wait_at}

module _ {S F : Type 0} (serial : ModemSerial S F) (delay : ℕ → S → S) where
  -- One round: AT is sent and a response waited for.
  unfoldable pub asked : S → Response × S
  asked s = let (_, sent) = send_cmd serial (txt "AT" ∷ []) s in wait_0 serial 1000 true true sent

  -- The state before the round `k`, when none of the rounds before it ended the loop.
  unfoldable pub before_round : ℕ → S → S
  before_round zero s = s
  before_round (suc k) s = before_round k (delay 100 (asked s).1)

  -- The response of the round `k`.
  unfoldable pub answer : ℕ → S → Response
  answer k s = (asked (before_round k s)).0

  sound :
      (awaited : Response → Bool) (rounds : ℕ) (s : S)
      → (wait_at serial delay awaited rounds s).0 ≡ true
      → (k : ℕ) × (k < rounds) × (awaited (answer k s) ≡ true)
  unfolding wait_at answer before_round asked
  sound awaited zero s h = absurd (true≢false (sym h))
  sound awaited (suc rounds) s h = elim (Bool-cases (awaited (asked s).0)) [
    | inl found ↦ (0, omega arith, found)
    | inr other ↦
        let (k, below, e) = sound awaited rounds (delay 100 (asked s).1) (rw other at h) in
        (suc k, omega arith, e)
  ]

  complete :
      (awaited : Response → Bool) (rounds : ℕ) (s : S) (k : ℕ)
      → k < rounds
      → awaited (answer k s) ≡ true
      → (wait_at serial delay awaited rounds s).0 ≡ true
  unfolding wait_at answer before_round asked
  complete awaited zero s k below e = absurd (omega arith)
  complete awaited (suc rounds) s zero below e = rw e refl
  complete awaited (suc rounds) s (suc k) below e = elim (Bool-cases (awaited (asked s).0)) [
    | inl found ↦ rw found refl
    | inr other ↦ rw other (complete awaited rounds (delay 100 (asked s).1) k (omega arith) e)
  ]

  -- The loop succeeds exactly when, in one of the rounds that the clock allows, the module gives the
  -- response that is awaited, each round being run behind the pause of the one before it.
  pub wait_at_lem :
      (awaited : Response → Bool) (rounds : ℕ) (s : S)
      → ((wait_at serial delay awaited rounds s).0 ≡ true)
        ↔ ((k : ℕ) × (k < rounds) × (awaited (answer k s) ≡ true))
  wait_at_lem awaited rounds s =
      (sound awaited rounds s, λ (k, below, e). complete awaited rounds s k below e)
