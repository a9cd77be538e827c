-- ===== src/Transport/Esp/Number/Line.antt =====
-- parseInt of src/modem_serial_esp.h on a line that brings a number which printItem wrote.
use a76xx.Prelude.{
  ℕ, zero, suc, ◌+◌, ◌-◌, ◌<◌, ◌≤◌, ◌≡◌, ◌≢◌, refl, sym, ap, ◌∙◌, Bool, true, false, [], ◌∷◌, ◌++◌,
  length, length-append, append_assoc, append-nil, arith, codes, take,
}
use a76xx.Prelude.Int.{ℤ, pos, negsuc}
use a76xx.Ring.Contents.{contents}
use a76xx.Serial.{Text, Item}
use a76xx.Transport.Uart.{Uart, IsLawful, IsPrompt}
use a76xx.Transport.Esp.{ModemSerialEsp}
use a76xx.Transport.Esp.Scan.{IsReady, window}
use a76xx.Transport.Esp.Print.{show_int, show_unsigned, formatted, item_bytes}
use a76xx.Transport.Esp.Number.{strchr, is_digit, int_format, narrow_int, strtol, parse_int}
use a76xx.Transport.Esp.Number.Automaton.{InNumber, Before, value_of}
use a76xx.Transport.Esp.Number.Parse.{parse_number_lem}
use a76xx.Transport.Esp.Number.Decimal.{
  IsInt32, AllDigits, Decimal, show_unsigned-Decimal, strtol-show_int,
}

-- Every character of the text is, or none is, one of `chars` or the null character.
abbrev pub AllAre : Bool → Text → Text → Type 0
AllAre b chars [] = Unit
AllAre b chars (c ∷ text) = (strchr chars c ≡ b) × AllAre b chars text

head_eq : {a b : ℕ} {xs ys : Text} → ◌≡◌ {A = Text} (a ∷ xs) (b ∷ ys) → a ≡ b
head_eq e = cc e

tail_eq : {a b : ℕ} {xs ys : Text} → ◌≡◌ {A = Text} (a ∷ xs) (b ∷ ys) → xs ≡ ys
tail_eq e = cc e

nonempty : {a : ℕ} {xs : Text} → ◌≢◌ {A = Text} (a ∷ xs) []
nonempty e = cc e

window_short : (xs : Text) → length xs < 200 → window xs ≡ xs
window_short xs h = let e : length xs - 199 ≡ 0 = omega arith in rw e refl

-- The answer of the automaton when the line brings the characters `ds` of the number, one that ends
-- it, and the rest.
record Answered (v n : ℤ) (left t later rest : Text) : Type 0 where
  value : n ≡ v
  kept : left ≡ t
  behind : later ≡ rest

InNumber-Answered :
    (ds : Text) {chars held got left later rest : Text} {n : ℤ} {t : ℕ} {TimeUp Quiet : Type 0}
    → InNumber int_format TimeUp Quiet chars held got n left
    → got ++ later ≡ ds ++ t ∷ rest
    → (left ≡ [] → later ≡ [])
    → AllAre true chars ds
    → strchr chars t ≡ false
    → length held + length ds < 20
    → Answered (strtol (held ++ ds)) n left (t ∷ []) later rest
unfolding int_format narrow_int
InNumber-Answered [] (InNumber.expired late) line over all ends short =
    absurd (nonempty (sym line ∙ over refl))
InNumber-Answered [] (InNumber.silent quiet) line over all ends short =
    absurd (nonempty (sym line ∙ over refl))
InNumber-Answered [] (InNumber.ended {chars} {held} {c} e) line over all ends short =
    let v : value_of int_format held ≡ strtol held = ground arith in
    record {
      value = v ∙ ap (λ (x : Text). strtol x) (sym (append-nil held));
      kept = ap (λ x. x ∷ []) (head_eq line);
      behind = tail_eq line;
    }
InNumber-Answered [] (InNumber.belongs {c} e h) line over all ends short =
    absurd (cc (e, ends, head_eq line))
InNumber-Answered (d ∷ ds) (InNumber.expired late) line over all ends short =
    absurd (nonempty (sym line ∙ over refl))
InNumber-Answered (d ∷ ds) (InNumber.silent quiet) line over all ends short =
    absurd (nonempty (sym line ∙ over refl))
InNumber-Answered (d ∷ ds) (InNumber.ended {c} e) line over all ends short =
    absurd (cc (e, all.0, head_eq line))
InNumber-Answered (d ∷ ds) (InNumber.belongs {held} {c} e h) line over all ends short =
    let same = head_eq line in
    let w : window (held ++ c ∷ []) ≡ held ++ c ∷ [] =
      window_short (held ++ c ∷ []) (omega (arith, length-append held (c ∷ []))) in
    let r =
      InNumber-Answered ds (rw w at h) (tail_eq line) over all.1 ends
        (omega (arith, length-append held (c ∷ []))) in
    record {
      value =
          r.value
          ∙ ap (λ (x : Text). strtol x)
              (append_assoc held (c ∷ []) ds ∙ ap (λ x. held ++ x ∷ ds) same);
      kept = r.kept;
      behind = r.behind;
    }

Before-Answered :
    (junk : Text) {chars got left later rest : Text} {n : ℤ} {t : ℕ} {TimeUp Quiet : Type 0} (d : ℕ)
    (ds : Text)
    → Before int_format TimeUp Quiet chars got n left
    → got ++ later ≡ junk ++ d ∷ ds ++ t ∷ rest
    → (left ≡ [] → later ≡ [])
    → AllAre false chars junk
    → strchr chars d ≡ true
    → AllAre true (take 10 chars) ds
    → strchr (take 10 chars) t ≡ false
    → length ds < 19
    → Answered (strtol (d ∷ ds)) n left (t ∷ []) later rest
unfolding int_format narrow_int
Before-Answered [] d ds (Before.nothing_came over_now) line over skip d_ok all ends short =
    absurd (nonempty (sym line ∙ over refl))
Before-Answered [] d ds (Before.skipped {c} e h) line over skip d_ok all ends short =
    absurd (cc (e, d_ok, head_eq line))
Before-Answered [] d ds (Before.begins {c} e h) line over skip d_ok all ends short =
    let same = head_eq line in
    let r = InNumber-Answered ds h (tail_eq line) over all ends (omega arith) in
    record { value = r.value ∙ ap (λ x. strtol (x ∷ ds)) same; kept = r.kept; behind = r.behind }
Before-Answered (j ∷ junk) d ds (Before.nothing_came over_now) line over skip d_ok all ends short =
    absurd (nonempty (sym line ∙ over refl))
Before-Answered (j ∷ junk) d ds (Before.begins {c} e h) line over skip d_ok all ends short =
    absurd (cc (e, skip.0, head_eq line))
Before-Answered (j ∷ junk) d ds (Before.skipped {c} e h) line over skip d_ok all ends short =
    Before-Answered junk d ds h (tail_eq line) over skip.1 d_ok all ends short

digit_chars :
    (c : ℕ)
    → is_digit c ≡ true
    → (strchr (codes "0123456789") c ≡ true) × (strchr (codes "0123456789-") c ≡ true)
unfolding strchr
digit_chars c h = (ground arith, ground arith)

AllDigits-AllAre : (xs : Text) → AllDigits xs → AllAre true (codes "0123456789") xs
AllDigits-AllAre [] h = tt
AllDigits-AllAre (x ∷ xs) (h, hs) = ((digit_chars x h).0, AllDigits-AllAre xs hs)

-- The decimals of an integer begin with a character of a number, and go on with digits.
abbrev Begins : Text → Type 0
Begins xs =
    (d : ℕ) × (ds : Text) × (xs ≡ d ∷ ds)
    × (strchr (codes "0123456789-") d ≡ true)
    × AllAre true (codes "0123456789") ds
    × (length ds < 19)

Decimal-Begins : (n : ℕ) (xs : Text) → Decimal n xs → Begins xs × Begins (b'-' ∷ xs)
unfolding Decimal strchr
Decimal-Begins n [] (all, v, len, some_digit) = absurd (omega arith)
Decimal-Begins n (c ∷ xs) (all, v, len, some_digit) = (
  (c, xs, refl, (digit_chars c all.0).1, AllDigits-AllAre xs all.1, omega arith),
  (b'-', c ∷ xs, refl, refl, AllDigits-AllAre (c ∷ xs) all, omega arith),
)

show_int-Begins : (z : ℤ) → IsInt32 z → Begins (show_int z)
unfolding show_int
show_int-Begins (pos n) h =
    (Decimal-Begins n (show_unsigned n) (show_unsigned-Decimal n (omega arith))).0
show_int-Begins (negsuc n) h =
    (Decimal-Begins (suc n) (show_unsigned (suc n)) (show_unsigned-Decimal (suc n) (omega arith))).1

-- On a line that brings everything at once, parseInt reads any 32-bit integer from its decimal
-- notation, as `%i` writes it, of whatever length: it skips what stands before, answers the number,
-- and leaves the character that ended it, and all that is behind, to be read. The text before may
-- have neither a digit, a minus sign nor a null character, and the character behind may be no digit
-- and not null.
pub parse_int_lem :
    {U : Type 0} (driver : Uart U) (incoming : U → Text) (s : ModemSerialEsp U) (z : ℤ)
    (junk : Text) (t : ℕ) (rest : Text)
    → IsLawful driver incoming
    → IsPrompt driver incoming
    → IsReady s.buf
    → IsInt32 z
    → AllAre false (codes "0123456789-") junk
    → strchr (codes "0123456789") t ≡ false
    → incoming s.uart ≡ junk ++ show_int z ++ t ∷ rest
    → ((parse_int driver incoming s).0 ≡ z)
      × (contents (parse_int driver incoming s).1.buf ≡ t ∷ [])
      × (incoming (parse_int driver incoming s).1.uart ≡ rest)
unfolding parse_int int_format
parse_int_lem driver incoming s z junk t rest law prompt ready small skip ends line =
    let p = parse_number_lem int_format driver incoming s law ready in
    let (d, ds, e, d_ok, all, short) = show_int-Begins z small in
    let r =
      Before-Answered junk d ds p.parses
        (sym p.split ∙ line ∙ ap (λ (x : Text). junk ++ x ++ t ∷ rest) e) (p.complete prompt) skip
        d_ok all ends short in
    (r.value ∙ ap (λ (x : Text). strtol x) (sym e) ∙ strtol-show_int z small, r.kept, r.behind)

formatted_short :
    (beyond : Text) (size : ℕ) (text : Text)
    → length text < size
    → formatted beyond size text ≡ text
unfolding formatted
formatted_short beyond zero text h = absurd (omega arith)
formatted_short beyond (suc size) text h =
    rw (take_all size text (omega arith)) (take_front text (0 ∷ beyond))
  where
    take_all : (n : ℕ) (xs : Text) → length xs ≤ n → take n xs ≡ xs
    take_all zero [] k = refl
    take_all zero (x ∷ xs) k = absurd (omega arith)
    take_all (suc n) [] k = refl
    take_all (suc n) (x ∷ xs) k = ap (λ (t : Text). x ∷ t) (take_all n xs (omega arith))

    take_front : (xs ys : Text) → take (length xs) (xs ++ ys) ≡ xs
    take_front [] ys = refl
    take_front (x ∷ xs) ys = ap (λ (t : Text). x ∷ t) (take_front xs ys)

-- What printItem sends for a 32-bit integer of up to 9 characters, whatever stands behind its array,
-- is read back by parseInt, on a line that brings it at once between a text with neither a digit, a
-- minus sign nor a null character and a character that is no digit and not null: the answer is the
-- integer, and the character behind it and all after that stay to be read.
pub parse_int-item_bytes :
    {U : Type 0} (driver : Uart U) (incoming : U → Text) (s : ModemSerialEsp U) (z : ℤ)
    (beyond junk : Text) (t : ℕ) (rest : Text)
    → IsLawful driver incoming
    → IsPrompt driver incoming
    → IsReady s.buf
    → IsInt32 z
    → length (show_int z) < 10
    → AllAre false (codes "0123456789-") junk
    → strchr (codes "0123456789") t ≡ false
    → incoming s.uart ≡ junk ++ item_bytes beyond (Item.int z) ++ t ∷ rest
    → ((parse_int driver incoming s).0 ≡ z)
      × (contents (parse_int driver incoming s).1.buf ≡ t ∷ [])
      × (incoming (parse_int driver incoming s).1.uart ≡ rest)
unfolding item_bytes
parse_int-item_bytes driver incoming s z beyond junk t rest law prompt ready small fits skip ends
      line =
    parse_int_lem driver incoming s z junk t rest law prompt ready small skip ends (
      line ∙ ap (λ (x : Text). junk ++ x ++ t ∷ rest) (formatted_short beyond 10 (show_int z) fits))
