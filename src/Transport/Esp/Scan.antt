-- ===== src/Transport/Esp/Scan.antt =====
-- What waitResponse of src/modem_serial_esp.h is to do, as a relation on the text of the line: the
-- first string in which the last 199 bytes end is the answer.
use a76xx.Prelude.{
  ℕ, ◌+◌, ◌-◌, ◌<◌, ◌≡◌, refl, ap, ◌∙◌, ◌⊎◌, inl, inr, true, false, Option, none, some, [], ◌∷◌,
  ◌++◌, length, drop, length-append, min, arith, Bool-cases,
}
use a76xx.Ring.{ByteRingBuf, get_used, clear, ends_with, init}
use a76xx.Ring.Inv.{
  IsValid, write-IsValid, clear-IsValid, init-IsValid, size-write, size-clear, size-init,
}
use a76xx.Ring.Contents.{contents, length-contents}
use a76xx.Ring.Write.{contents-write}
use a76xx.Ring.Match.{EndsIn, ends_with_lem, ends_with-none}
use a76xx.Serial.{Text, Response}
use a76xx.Transport.Candidates.{Candidates, Meets, First, Misses}
use a76xx.Transport.Esp.{first_match, push}

-- An empty string ends nothing.
abbrev pub Ends : Text → Text → Type 0
Ends held str = (0 < length str) × EndsIn held str

ends_with-Ends :
    {r : ByteRingBuf} (str : Option Text)
    → IsValid r
    → ((ends_with r str ≡ true) × Meets Ends (contents r) str)
      ⊎ ((ends_with r str ≡ false) × (¬ (Meets Ends (contents r) str)))
ends_with-Ends {r} none v = inr (ends_with-none r, λ e. e)
ends_with-Ends {r} (some str) v = elim (Bool-cases (ends_with r (some str))) [
  | inl e ↦ inl (e, (ends_with_lem str v).0 e)
  | inr e ↦ inr (e, λ h. cc ((ends_with_lem str v).1 h, e))
]

pub first_match_lem :
    {A : Type 0} {r : ByteRingBuf} (cs : Candidates A)
    → IsValid r
    → ((a : A) × (first_match cs r ≡ some a) × First Ends cs (contents r) a)
      ⊎ ((first_match cs r ≡ none) × Misses Ends cs (contents r))
unfolding first_match
first_match_lem [] v = inr (refl, tt)
first_match_lem {A} {r} ((str, a) ∷ cs) v = elim (ends_with-Ends str v) [
  | inl (e, h) ↦ rw e (inl (a, refl, First.here h))
  | inr (e, h) ↦ rw e (elim (first_match_lem cs v) [
    | inl (b, f, p) ↦ inl (b, f, First.later h p)
    | inr (f, p) ↦ inr (f, (h, p))
  ])
]

-- The ring of 200 bytes holds the last 199 bytes of a text.
abbrev pub window : Text → Text
window xs = drop (length xs - 199) xs

pub record IsReady (r : ByteRingBuf) : Type 0 where
  pub valid : IsValid r
  pub sized : r.size ≡ 200

pub push-IsReady : {r : ByteRingBuf} (b : ℕ) → IsReady r → IsReady (push b r)
unfolding push
push-IsReady {r} b v = record {
  valid = write-IsValid (b ∷ []) 1 v.valid;
  sized = size-write r (b ∷ []) 1 ∙ v.sized;
}

pub clear-IsReady : {r : ByteRingBuf} → IsReady r → IsReady (clear r)
clear-IsReady {r} v = record { valid = clear-IsValid v.valid; sized = size-clear r ∙ v.sized }

pub init-IsReady : IsReady (init 200)
init-IsReady = record {
  valid = init-IsValid 200 (omega arith) (omega arith);
  sized = size-init 200;
}

pub contents-push :
    {r : ByteRingBuf} (b : ℕ) → IsReady r → contents (push b r) ≡ window (contents r ++ b ∷ [])
unfolding push
contents-push {r} b v =
    let s = v.sized in
    let e : get_used r + 1 - (r.size - 1) ≡ length (contents r ++ b ∷ []) - 199 =
      omega (arith, length-append (contents r) (b ∷ []), length-contents r) in
    let f : min 1 (r.size - 1) ≡ 1 = omega arith in
    (rw f at (contents-write (b ∷ []) 1 v.valid (omega arith)))
    ∙ ap (λ k. drop k (contents r ++ b ∷ [])) e

-- `Scan targets events held got rsp`: behind the bytes `held`, the line brings `got`, and the answer
-- is `rsp`. It is a timeout when no byte comes; otherwise the next byte completes one of the targets,
-- or the string of an event, whose handler takes some text, or neither.
pub data Scan {E : Type 0} (targets : Candidates Response) (events : Candidates E)
    : Text → Text → Response → Type 0 where
  quiet : {held : Text} → Scan targets events held [] Response.timeout
  found :
      {held : Text} {b : ℕ} {rsp : Response}
      → First Ends targets (window (held ++ b ∷ [])) rsp
      → Scan targets events held (b ∷ []) rsp
  event :
      {held got : Text} {b : ℕ} {e : E} {rsp : Response} (taken : Text)
      → Misses Ends targets (window (held ++ b ∷ []))
      → First Ends events (window (held ++ b ∷ [])) e
      → Scan targets events [] got rsp
      → Scan targets events held (b ∷ taken ++ got) rsp
  neither :
      {held got : Text} {b : ℕ} {rsp : Response}
      → Misses Ends targets (window (held ++ b ∷ []))
      → Misses Ends events (window (held ++ b ∷ []))
      → Scan targets events (window (held ++ b ∷ [])) got rsp
      → Scan targets events held (b ∷ got) rsp
