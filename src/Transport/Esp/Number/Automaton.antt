-- ===== src/Transport/Esp/Number/Automaton.antt =====
-- What parseInt and parseFloat of src/modem_serial_esp.h are to do, as an automaton on the characters
-- that the line brings.
use a76xx.Prelude.{ℕ, ◌≡◌, ◌⊎◌, Bool, true, false, [], ◌∷◌, ◌++◌, length, if◌then◌else◌, ltb}
use a76xx.Serial.{Text}
use a76xx.Transport.Esp.Scan.{window}
use a76xx.Transport.Esp.Number.{strchr, NumberFormat}

module _ {N : Type 0} (format : NumberFormat N) where
  -- 20 characters are too many.
  abbrev pub value_of : Text → N
  value_of held = if ltb (length held) 20 then format.value held else format.nothing

  -- `InNumber chars held got n left`: the characters `held` of a number have been collected, `chars`
  -- may follow, and the line brings `got`; the answer is `n`, and `left` stays to be read. The time
  -- is up, for which there is `TimeUp`, or the line falls silent, for which there is `Quiet`, or a
  -- character ends the number, or one belongs to it.
  pub data InNumber (TimeUp Quiet : Type 0) : Text → Text → Text → N → Text → Type 0 where
    expired : {chars held : Text} → TimeUp → InNumber TimeUp Quiet chars held [] format.nothing []
    silent : {chars held : Text} → Quiet → InNumber TimeUp Quiet chars held [] (value_of held) []
    ended :
        {chars held : Text} {c : ℕ}
        → strchr chars c ≡ false
        → InNumber TimeUp Quiet chars held (c ∷ []) (value_of held) (c ∷ [])
    belongs :
        {chars held got left : Text} {c : ℕ} {n : N}
        → strchr chars c ≡ true
        → InNumber TimeUp Quiet (format.narrow true c chars) (window (held ++ c ∷ [])) got n left
        → InNumber TimeUp Quiet chars held (c ∷ got) n left

  -- The same before the number: all is skipped up to a character that may begin it.
  pub data Before (TimeUp Quiet : Type 0) : Text → Text → N → Text → Type 0 where
    nothing_came : {chars : Text} → TimeUp ⊎ Quiet → Before TimeUp Quiet chars [] format.nothing []
    skipped :
        {chars got left : Text} {c : ℕ} {n : N}
        → strchr chars c ≡ false
        → Before TimeUp Quiet chars got n left
        → Before TimeUp Quiet chars (c ∷ got) n left
    begins :
        {chars got left : Text} {c : ℕ} {n : N}
        → strchr chars c ≡ true
        → InNumber TimeUp Quiet (format.narrow false c chars) (c ∷ []) got n left
        → Before TimeUp Quiet chars (c ∷ got) n left

  abbrev pub Parses : Type 0 → Type 0 → Bool → Text → Text → Text → N → Text → Type 0
  Parses TimeUp Quiet true chars held got n left = InNumber TimeUp Quiet chars held got n left
  Parses TimeUp Quiet false chars held got n left = Before TimeUp Quiet chars got n left
