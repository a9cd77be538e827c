-- ===== src/Transport/Candidates.antt =====
-- Strings to look for at the end of a text, and what it means that one is found first. The transports
-- differ in what they count as a match.
use a76xx.Prelude.{Option, none, some, List, [], ◌∷◌}
use a76xx.Serial.{Text}

-- Strings, some of them null, with what is to happen when the bytes held end in one.
abbrev pub Candidates : Type 0 → Type 0
Candidates A = List (Option Text × A)

-- A null string is never matched.
abbrev pub Meets : (Text → Text → Type 0) → Text → Option Text → Type 0
Meets Match held none = ⊥
Meets Match held (some str) = Match held str

-- The first string that the text meets is the one of `a`.
pub data First {A : Type 0} (Match : Text → Text → Type 0) : Candidates A → Text → A → Type 0 where
  here :
      {held : Text} {str : Option Text} {a : A} {more : Candidates A}
      → Meets Match held str
      → First Match ((str, a) ∷ more) held a
  later :
      {held : Text} {str : Option Text} {a b : A} {more : Candidates A}
      → ¬ (Meets Match held str)
      → First Match more held a
      → First Match ((str, b) ∷ more) held a

-- The text meets none of the strings.
abbrev pub Misses : {A : Type 0} → (Text → Text → Type 0) → Candidates A → Text → Type 0
Misses Match [] held = Unit
Misses Match ((str, a) ∷ more) held = (¬ (Meets Match held str)) × Misses Match more held

abbrev pub AllLead : {A : Type 0} → (A → Type 0) → Candidates A → Type 0
AllLead P [] = Unit
AllLead P ((str, a) ∷ more) = P a × AllLead P more

-- What holds of every candidate holds of the one that is found.
pub First-AllLead :
    {A : Type 0} {Match : Text → Text → Type 0} (P : A → Type 0) (cs : Candidates A) {held : Text}
    {a : A}
    → First Match cs held a
    → AllLead P cs
    → P a
First-AllLead P [] found all = elim found [ ]
First-AllLead P ((str, a) ∷ more) (First.here h) all = all.0
First-AllLead P ((str, b) ∷ more) (First.later h found) all = First-AllLead P more found all.1
