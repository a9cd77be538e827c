-- ===== src/Clients/Steps.antt =====
-- The specification of the clients' functions: a list of commands that are run until one fails.
use mathlib.Core.Bool.{true≢false}
use a76xx.Prelude.{
  sym, ◌∙◌, Bool, true, false, if◌then◌else◌, List, [], ◌∷◌, ◌++◌, ◌≡◌, refl, inl, inr, Bool-cases,
}
use a76xx.Prelude.Int.{ℤ, is_zero}
use a76xx.Serial.{Cmd, pure, succeeded, ◌>>=◌}
use a76xx.Clients.{Session, assert_bool}

-- `Runs commands s code s'`: from the state `s` the commands were run in their order, up to the
-- first that returned a code that is not 0, or all of them. That code, or 0, is `code`, and `s'` is
-- the state behind the last command that was run.
pub data Runs {S : Type 0} : List (Cmd S ℤ) → S → ℤ → S → Type 0 where
  done : {s : S} → Runs [] s succeeded s
  failed :
      {m : Cmd S ℤ} {ms : List (Cmd S ℤ)} {s : S}
      → is_zero ((m s).0) ≡ false
      → Runs (m ∷ ms) s ((m s).0) ((m s).1)
  next :
      {m : Cmd S ℤ} {ms : List (Cmd S ℤ)} {s s' : S} {z : ℤ}
      → is_zero ((m s).0) ≡ true
      → Runs ms ((m s).1) z s'
      → Runs (m ∷ ms) s z s'

-- Every command in turn returns 0, and the last one leaves `s'`.
unfoldable pub AllSucceed : {S : Type 0} → List (Cmd S ℤ) → S → S → Type 0
AllSucceed [] s s' = s ≡ s'
AllSucceed (m ∷ ms) s s' = (is_zero ((m s).0) ≡ true) × AllSucceed ms ((m s).1) s'

-- The session behind commands that ended with the code `z` in the state `s`.
unfoldable pub ended : {S : Type 0} → Session S → ℤ → S → Bool × Session S
ended c z s = (is_zero z, record { last_error = if is_zero z then c.last_error else z; port = s })

-- The function runs the commands up to the first failure, returns whether all succeeded, and keeps
-- the code of the failure as the last error, which is left alone otherwise.
unfoldable pub Follows : {S : Type 0} → List (Cmd S ℤ) → Cmd (Session S) Bool → Type 0
Follows ms f = (c : _) → (z : ℤ) × (s : _) × Runs ms c.port z s × (f c ≡ ended c z s)

pub pure-Follows : (S : Type 0) → Follows {S = S} [] (pure true)
unfolding Follows ended
pure-Follows S c = (succeeded, c.port, Runs.done, refl)

module _ {S : Type 0} where
  pub assert_bool-Follows :
      (m : Cmd S ℤ) (ms : List (Cmd S ℤ)) (f : Cmd (Session S) Bool)
      → Follows ms f
      → Follows (m ∷ ms) (assert_bool m f)
  unfolding Follows ended assert_bool
  assert_bool-Follows m ms f follows c = elim (Bool-cases (is_zero ((m c.port).0))) [
    | inl ok ↦
        let (z, s, runs, eq) =
          follows (record { last_error = c.last_error; port = (m c.port).1 }) in
        (z, s, Runs.next ok runs, rw ok eq)
    | inr bad ↦ ((m c.port).0, (m c.port).1, Runs.failed bad, rw bad)
  ]

  -- Commands that all succeeded, and then others.
  pub Runs-then :
      {ms ns : List (Cmd S ℤ)} {s s' s'' : S} {z z' : ℤ}
      → Runs ms s z s'
      → is_zero z ≡ true
      → Runs ns s' z' s''
      → Runs (ms ++ ns) s z' s''
  Runs-then Runs.done zero rest = rest
  Runs-then (Runs.failed bad) zero rest = absurd (true≢false (sym zero ∙ bad))
  Runs-then (Runs.next ok runs) zero rest = Runs.next ok (Runs-then runs zero rest)

  pub Runs-stop :
      {ms : List (Cmd S ℤ)} (ns : List (Cmd S ℤ)) {s s' : S} {z : ℤ}
      → Runs ms s z s'
      → is_zero z ≡ false
      → Runs (ms ++ ns) s z s'
  Runs-stop ns Runs.done bad = absurd (true≢false bad)
  Runs-stop ns (Runs.failed bad') bad = Runs.failed bad'
  Runs-stop ns (Runs.next ok runs) bad = Runs.next ok (Runs-stop ns runs bad)

  -- `f() && g()`
  pub both-Follows :
      (ms ns : List (Cmd S ℤ)) (f g : Cmd (Session S) Bool)
      → Follows ms f
      → Follows ns g
      → Follows (ms ++ ns) (do first ← f; if first then g else pure false)
  unfolding Follows ended
  both-Follows ms ns f g follows_f follows_g c =
      let (z, s, runs, eq) = follows_f c in
      elim (Bool-cases (is_zero z)) [
        | inl ok ↦
            let (z', s', runs', eq') = follows_g (record { last_error = c.last_error; port = s }) in
            (z', s', Runs-then runs ok runs', rw eq (rw ok eq'))
        | inr bad ↦ (z, s, Runs-stop ns runs bad, rw eq (rw bad))
      ]

  -- A run that ended with 0 has run every command.
  pub Runs-AllSucceed :
      {ms : List (Cmd S ℤ)} {s s' : S} {z : ℤ}
      → Runs ms s z s'
      → is_zero z ≡ true
      → AllSucceed ms s s'
  unfolding AllSucceed
  Runs-AllSucceed Runs.done zero = refl
  Runs-AllSucceed (Runs.failed bad) zero = absurd (true≢false (sym zero ∙ bad))
  Runs-AllSucceed (Runs.next ok runs) zero = (ok, Runs-AllSucceed runs zero)
