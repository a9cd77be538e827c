-- ===== src/Transport/Esp/Dialog/Answer.antt =====
-- What waitResponse of src/modem_serial_esp.h answers, computed from the text of the line, when there
-- are no URCs to handle.
use a76xx.Prelude.{
  ◌-◌, ◌≤◌, ◌==◌, ==_iff, ltb, leb, ◌&&◌, ◌≡◌, ◌↔◌, refl, sym, ap, ◌∙◌, Bool, true, false, Option,
  none, some, [], ◌∷◌, ◌++◌, length, length-append, take, drop, drop-append, take-append-drop,
  if◌then◌else◌, Bool-cases, inl, inr, arith,
}
use a76xx.Serial.{Text, Response}
use a76xx.Transport.Candidates.{Candidates, First, Misses}
use a76xx.Transport.Esp.Scan.{Ends, Scan, window}

abbrev pub eq_text : Text → Text → Bool
eq_text [] [] = true
eq_text (x ∷ xs) (y ∷ ys) = if x == y then eq_text xs ys else false
eq_text [] (y ∷ ys) = false
eq_text (x ∷ xs) [] = false

eq_text_iff : (xs ys : Text) → (eq_text xs ys ≡ true) ↔ (xs ≡ ys)
eq_text_iff [] [] = (λ h. refl, λ h. refl)
eq_text_iff [] (y ∷ ys) = (λ h. cc h, λ h. cc h)
eq_text_iff (x ∷ xs) [] = (λ h. cc h, λ h. cc h)
eq_text_iff (x ∷ xs) (y ∷ ys) = ground (arith, ==_iff x y, eq_text_iff xs ys)

abbrev pub ends_in : Text → Text → Bool
ends_in held str =
    if ltb 0 (length str) && leb (length str) (length held)
    then eq_text (drop (length held - length str) held) str
    else false

ends_in_iff : (held str : Text) → (ends_in held str ≡ true) ↔ Ends held str
ends_in_iff held str =
    let n = length held - length str in
    (
      λ h.
          let e : drop n held ≡ str = (eq_text_iff (drop n held) str).0 (ground arith) in
          (
            ground arith,
            (
              take n held,
              sym (ap (λ (t : Text). take n held ++ t) (sym e) ∙ take-append-drop n held),
            ),
          ),
      λ (positive, (pre, e)).
          let len = length-append pre str in
          let m = ap (λ (t : Text). length t) e in
          let front : length held - length str ≡ length pre = omega arith in
          let same : drop n held ≡ str =
            rw front (ap (λ (t : Text). drop (length pre) t) e ∙ drop-append pre str) in
          let yes_eq = (eq_text_iff (drop n held) str).1 same in
          let fits : length str ≤ length held = omega arith in ground arith,
    )

abbrev pub answer_to : Candidates Response → Text → Option Response
answer_to [] held = none
answer_to ((none, a) ∷ cs) held = answer_to cs held
answer_to ((some str, a) ∷ cs) held = if ends_in held str then some a else answer_to cs held

First-answer_to :
    (cs : Candidates Response) {held : Text} {a : Response}
    → First Ends cs held a
    → answer_to cs held ≡ some a
First-answer_to [] found = elim found [ ]
First-answer_to ((none, a) ∷ cs) (First.here h) = absurd h
First-answer_to ((none, a) ∷ cs) (First.later h found) = First-answer_to cs found
First-answer_to ((some str, a) ∷ cs) (First.here {held} h) = rw ((ends_in_iff held str).1 h) refl
First-answer_to ((some str, b) ∷ cs) (First.later {held} h found) =
    elim (Bool-cases (ends_in held str)) [
      | inl e ↦ absurd (h ((ends_in_iff held str).0 e))
      | inr e ↦ rw e (First-answer_to cs found)
    ]

Misses-answer_to :
    (cs : Candidates Response) (held : Text) → Misses Ends cs held → answer_to cs held ≡ none
Misses-answer_to [] held m = refl
Misses-answer_to ((none, a) ∷ cs) held m = Misses-answer_to cs held m.1
Misses-answer_to ((some str, a) ∷ cs) held m = elim (Bool-cases (ends_in held str)) [
  | inl e ↦ absurd (m.0 ((ends_in_iff held str).0 e))
  | inr e ↦ rw e (Misses-answer_to cs held m.1)
]

-- The answer, and what is left of the line behind it.
abbrev pub answered : Option Response → Text → Option (Response × Text) → Option (Response × Text)
answered none line rest = rest
answered (some rsp) line rest = some (rsp, line)

abbrev pub answer_of : Candidates Response → Text → Text → Option (Response × Text)
answer_of targets held [] = none
answer_of targets held (b ∷ line) =
    let held' = window (held ++ b ∷ []) in
    answered (answer_to targets held') line (answer_of targets held' line)

pub Scan-answer_of :
    {E : Type 0} (targets : Candidates Response) {held got : Text} {rsp : Response} (later : Text)
    (r : Response) (rest : Text)
    → Scan {E = E} targets [] held got rsp
    → (rsp ≡ Response.timeout → later ≡ [])
    → answer_of targets held (got ++ later) ≡ some (r, rest)
    → (rsp ≡ r) × (later ≡ rest)
Scan-answer_of targets later r rest (Scan.quiet {held}) over e =
    absurd (cc (ap (λ t. answer_of targets held t) (over refl), e))
Scan-answer_of targets later r rest (Scan.found {held} {b} {rsp} first) over e =
    let f = First-answer_to targets first in
    let g : ◌≡◌ {A = Option (Response × Text)} (some (rsp, later)) (some (r, rest)) = rw f at e in
    (cc g, cc g)
Scan-answer_of targets later r rest (Scan.event taken misses first scan) over e = elim first [ ]
Scan-answer_of targets later r rest (Scan.neither {held} {got} {b} misses calm scan) over e =
    let f = Misses-answer_to targets (window (held ++ b ∷ [])) misses in
    Scan-answer_of targets later r rest scan over (rw f at e)

pub Scan-nothing :
    {E : Type 0} {targets : Candidates Response} {events : Candidates E} {held got : Text}
    {rsp : Response}
    → Scan targets events held got rsp
    → got ≡ []
    → rsp ≡ Response.timeout
Scan-nothing (Scan.quiet) e = refl
Scan-nothing (Scan.found first) e = absurd (cc e)
Scan-nothing (Scan.event taken misses first scan) e = absurd (cc e)
Scan-nothing (Scan.neither misses calm scan) e = absurd (cc e)
