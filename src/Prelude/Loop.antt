-- ===== src/Prelude/Loop.antt =====
-- Loops that stop by a `return`: the body as a step function, run on fuel, and the rule that proves
-- at once that a loop returns and what.
use Prim.Native.Nat.{ℕ, zero, suc, ◌<◌}
use mathlib.Core.Path.{◌≡◌, refl}
use mathlib.Core.Logic.{◌⊎◌, inl, inr}
use mathlib.Core.Option.{Option, none, some}
use native.Mathlib.Omega.{arith}

-- One round either goes on from a new state or returns.
pub data Step (S A : Type 0) : Type 0 where
  again : S → Step S A
  stop : A → Step S A

-- The result of a loop that returned.
unfoldable pub returned : {A : Type 0} → A → Option A → A
returned a none = a
returned a (some b) = b

module _ {S A : Type 0} where
  unfoldable pub continue : (S → Option A) → Step S A → Option A
  continue rest (Step.again s) = rest s
  continue rest (Step.stop a) = some a

  -- `while (1)`, for at most as many rounds as given.
  unfoldable pub loop : (S → Step S A) → ℕ → S → Option A
  unfolding continue
  loop body zero s = none
  loop body (suc n) s = continue (loop body n) (body s)

  -- What a round does: it goes on from a good state with a smaller measure, from where every result
  -- carries back; or it returns a result.
  abbrev pub Round : (S → ℕ) → (S → Type 0) → (S → A → Type 0) → S → Step S A → Type 0
  Round measure Good Result s x =
      ((s' : S) × (x ≡ Step.again s')
        × Good s'
        × (measure s' < measure s)
        × ((a : A) → Result s' a → Result s a))
      ⊎ ((a : A) × (x ≡ Step.stop a) × Result s a)

  -- A loop whose rounds are like this returns, and with a result.
  pub loop_lem :
      (body : S → Step S A) (measure : S → ℕ) (Good : S → Type 0) (Result : S → A → Type 0)
      → ((s : S) → Good s → Round measure Good Result s (body s))
      → (n : ℕ) (s : S) → measure s < n
      → Good s
      → (a : A) × (loop body n s ≡ some a) × Result s a
  unfolding loop continue
  loop_lem body measure Good Result round zero s h g = absurd (omega arith)
  loop_lem body measure Good Result round (suc n) s h g = elim (round s g) [
    | inl (s', e, g', less, back) ↦
        let (a, e', r) = loop_lem body measure Good Result round n s' (omega arith) g' in
        rw e (a, e', back a r)
    | inr (a, e, r) ↦ rw e (a, refl, r)
  ]
