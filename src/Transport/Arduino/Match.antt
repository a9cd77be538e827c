-- ===== src/Transport/Arduino/Match.antt =====
-- endsWith of src/modem_serial_arduino.h over the vendored CircularBuffer.
use native.Mathlib.Decide.{dec_lt}
use a76xx.Prelude.{
  ℕ, zero, suc, ◌+◌, ◌-◌, ◌≤◌, ◌<◌, ◌≡◌, ◌↔◌, ◌⊎◌, inl, inr, sym, ◌∙◌, ap, refl, Bool-cases, true,
  false, none, some, [], ◌∷◌, ◌++◌, length, get_or, take, drop, arith, length-append, length-drop,
  get_or-append, get_or-drop, list_ext, take-append-drop,
}
use a76xx.Serial.{Text}
use a76xx.Ring.Match.{EndsIn}
use a76xx.Transport.Candidates.{Candidates, First, Misses}
use a76xx.Transport.Stream.{CircularBuffer, IsCircular}
use a76xx.Transport.Arduino.{ends_loop, ends_with, first_match}

-- The last characters agree with those of the string, one by one.
abbrev Agrees : Text → Text → ℕ → Type 0
Agrees held str n = (k : ℕ) → k < n → get_or held (length held - length str + k) 0 ≡ get_or str k 0

EndsIn-Agrees :
    (held str : Text) → EndsIn held str → (length str ≤ length held) × Agrees held str (length str)
EndsIn-Agrees held str (pre, e) =
    let n = length-append pre str in
    let m = ap (λ (l : Text). length l) e in
    (
      omega (arith, n, m),
      λ k hk.
          let at : length held - length str + k ≡ length pre + k = omega (arith, n, m) in
          let back : length pre + k - length pre ≡ k = omega arith in
          rw at (
            ap (λ (l : Text). get_or l (length pre + k) 0) e
            ∙ ground
                (arith, get_or-append pre str (length pre + k) 0, ap (λ j. get_or str j 0) back)),
    )

Agrees-EndsIn :
    (held str : Text) → length str ≤ length held → Agrees held str (length str) → EndsIn held str
Agrees-EndsIn held str fits h =
    let n = length held - length str in
    let tail : drop n held ≡ str =
      list_ext 0 _ _ (omega (arith, length-drop n held))
        (λ i hi. get_or-drop n held i 0 ∙ h i (omega (arith, length-drop n held))) in
    (take n held, sym (ap (λ (t : Text). take n held ++ t) (sym tail) ∙ take-append-drop n held))

module _ {B : Type 0} (buffer : CircularBuffer B) {held : B → Text} (law : IsCircular buffer held)
    (d : B) (str : Text) (fits : length str ≤ length (held d)) where
  -- One round compares a character held with one of the string.
  ends_round :
      (i left : ℕ)
      → i + suc left ≡ length str + 1
      → 1 ≤ i
      → (buffer.at d (buffer.size d - i) ≡ get_or (held d) (length (held d) - length str + left) 0)
        × (get_or str (length str - i) 0 ≡ get_or str left 0)
  ends_round i left e lo =
      let s = law.size_lem d in
      let at : length (held d) - i ≡ length (held d) - length str + left = omega arith in
      let k : length str - i ≡ left = omega arith in
      (
        rw (s, at) (law.at_lem d (length (held d) - length str + left) (omega arith)),
        ap (λ j. get_or str j 0) k,
      )

  ends_loop_sound :
      (i left : ℕ)
      → i + left ≡ length str + 1
      → 1 ≤ i
      → ends_loop buffer d str i left ≡ true
      → Agrees (held d) str left
  unfolding ends_loop
  ends_loop_sound i zero e lo h k hk = absurd (omega arith)
  ends_loop_sound i (suc left) e lo h k hk =
      let s = law.size_lem d in
      let here = ends_round i left e lo in
      elim (dec_lt k left) [
        | yes p ↦ ends_loop_sound (suc i) left (omega arith) (omega arith) (ground arith) k p
        | no p ↦
            let same : k ≡ left = omega arith in
            rw same (sym here.0 ∙ ground (arith, here) ∙ here.1)
      ]

  ends_loop_complete :
      (i left : ℕ)
      → i + left ≡ length str + 1
      → 1 ≤ i
      → Agrees (held d) str left
      → ends_loop buffer d str i left ≡ true
  unfolding ends_loop
  ends_loop_complete i zero e lo h = refl
  ends_loop_complete i (suc left) e lo h =
      let s = law.size_lem d in
      let here = ends_round i left e lo in
      ground (
        arith,
        here,
        h left (omega arith),
        ends_loop_complete (suc i) left (omega arith) (omega arith) (λ k hk. h k (omega arith)),
      )

module _ {B : Type 0} (buffer : CircularBuffer B) {held : B → Text} (law : IsCircular buffer held)
    (d : B) where
  -- `endsWith` tells whether the characters held end in a string; in the empty one they always do.
  pub ends_with_lem : (str : Text) → (ends_with buffer d str ≡ true) ↔ EndsIn (held d) str
  unfolding ends_with
  ends_with_lem str =
      let s = law.size_lem d in
      (
        λ h.
            let fits : length str ≤ length (held d) = ground arith in
            Agrees-EndsIn (held d) str fits (
              ends_loop_sound buffer law d str fits 1 (length str) (omega arith) (omega arith)
                (ground arith)),
        λ p.
            let (fits, all) = EndsIn-Agrees (held d) str p in
            let done =
              ends_loop_complete buffer law d str fits 1 (length str) (omega arith) (omega arith)
                all in
            ground arith,
      )

  pub ends_with-cases :
      (str : Text)
      → ((ends_with buffer d str ≡ true) × EndsIn (held d) str)
        ⊎ ((ends_with buffer d str ≡ false) × (¬ (EndsIn (held d) str)))
  ends_with-cases str = elim (Bool-cases (ends_with buffer d str)) [
    | inl e ↦ inl (e, (ends_with_lem str).0 e)
    | inr e ↦ inr (e, λ h. cc ((ends_with_lem str).1 h, e))
  ]

  pub first_match_lem :
      {A : Type 0} (cs : Candidates A)
      → ((a : A) × (first_match buffer cs d ≡ some a) × First EndsIn cs (held d) a)
        ⊎ ((first_match buffer cs d ≡ none) × Misses EndsIn cs (held d))
  unfolding first_match
  first_match_lem [] = inr (refl, tt)
  first_match_lem ((none, a) ∷ cs) = elim (first_match_lem cs) [
    | inl (b, f, p) ↦ inl (b, f, First.later (λ h. h) p)
    | inr (f, p) ↦ inr (f, (λ h. h, p))
  ]
  first_match_lem ((some str, a) ∷ cs) = elim (ends_with-cases str) [
    | inl (e, h) ↦ rw e (inl (a, refl, First.here h))
    | inr (e, h) ↦ rw e (elim (first_match_lem cs) [
      | inl (b, f, p) ↦ inl (b, f, First.later h p)
      | inr (f, p) ↦ inr (f, (h, p))
    ])
  ]
