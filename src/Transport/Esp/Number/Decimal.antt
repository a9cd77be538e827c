-- ===== src/Transport/Esp/Number/Decimal.antt =====
-- The decimals that printItem of src/modem_serial_esp.h sends are numbers to parseInt.
use a76xx.Prelude.{
  ℕ, zero, suc, ◌+◌, ◌-◌, ◌*◌, ◌/◌, ◌%◌, ◌^◌, ◌<◌, ◌≤◌, ◌≡◌, refl, ap, ◌∙◌, ◌⊎◌, inl, inr, true,
  false, [], ◌∷◌, ◌++◌, length, length-append, arith, Bool-cases, ltb, ◌==◌,
}
use a76xx.Prelude.Int.{ℤ, pos, negsuc}
use a76xx.Serial.{Text}
use a76xx.Transport.Esp.Number.{is_digit, digits_value, strtol, strtol_sign, to_long, is_space}
use a76xx.Transport.Esp.Print.{decimal_digits, show_unsigned, show_int}

abbrev pub AllDigits : Text → Type 0
AllDigits [] = Unit
AllDigits (c ∷ text) = (is_digit c ≡ true) × AllDigits text

AllDigits-append : (xs ys : Text) → AllDigits xs → AllDigits ys → AllDigits (xs ++ ys)
AllDigits-append [] ys h k = k
AllDigits-append (x ∷ xs) ys (h, hs) k = (h, AllDigits-append xs ys hs k)

digits_value-append :
    (acc : ℕ) (xs ys : Text)
    → AllDigits xs
    → digits_value acc (xs ++ ys) ≡ digits_value (digits_value acc xs) ys
unfolding digits_value
digits_value-append acc [] ys h = refl
digits_value-append acc (x ∷ xs) ys (h, hs) =
    rw h (digits_value-append (acc * 10 + (x - 48)) xs ys hs)

-- 10 ^ k
abbrev power_of_10 : ℕ → ℕ
power_of_10 zero = 1
power_of_10 (suc k) = 10 * power_of_10 k

-- A last digit.
snoc_lem :
    (k n d : ℕ) (xs : Text)
    → d < 10
    → AllDigits xs
    → digits_value 0 xs ≡ n
    → length xs ≤ k
    → AllDigits (xs ++ (48 + d) ∷ [])
      × (digits_value 0 (xs ++ (48 + d) ∷ []) ≡ n * 10 + d)
      × (length (xs ++ (48 + d) ∷ []) ≤ suc k)
      × (0 < length (xs ++ (48 + d) ∷ []))
unfolding digits_value
snoc_lem k n d xs small all v len =
    let e : is_digit (48 + d) ≡ true = ground arith in
    let f : digits_value n ((48 + d) ∷ []) ≡ n * 10 + d = rw e (omega arith) in
    (
      AllDigits-append xs ((48 + d) ∷ []) all (e, tt),
      digits_value-append 0 xs ((48 + d) ∷ []) all ∙ ap (λ a. digits_value a ((48 + d) ∷ [])) v ∙ f,
      omega (arith, length-append xs ((48 + d) ∷ [])),
      omega (arith, length-append xs ((48 + d) ∷ [])),
    )

decimal_lem :
    (k n : ℕ)
    → n < power_of_10 k
    → (0 < n) ⊎ (0 < k)
    → AllDigits (decimal_digits k n)
      × (digits_value 0 (decimal_digits k n) ≡ n)
      × (length (decimal_digits k n) ≤ k)
      × (0 < length (decimal_digits k n))
unfolding decimal_digits digits_value
decimal_lem zero n h p = absurd (elim p [ inl q ↦ omega arith | inr q ↦ omega arith ])
decimal_lem (suc k) n h p = elim (Bool-cases (ltb n 10)) [
  | inl e ↦
      let (all, v, len, nonempty) = snoc_lem k 0 n [] (ground arith) tt refl (omega arith) in
      rw e (all, v ∙ omega arith, len, nonempty)
  | inr e ↦
      let (all, v, len, nonempty) = decimal_lem k (n / 10) (omega arith) (inl (ground arith)) in
      let (all', v', len', nonempty') =
        snoc_lem k (n / 10) (n % 10) (decimal_digits k (n / 10)) (omega arith) all v len in
      rw e (all', v' ∙ omega arith, len', nonempty')
]

-- A text of digits is a number to `strtol`.
strtol_digits :
    (c : ℕ) (text : Text)
    → AllDigits (c ∷ text)
    → strtol (c ∷ text) ≡ to_long false (digits_value 0 (c ∷ text))
unfolding strtol strtol_sign
strtol_digits c text h =
    let bounds : (48 ≤ c) × (c ≤ 57) = (let d = h.0 in ground arith) in
    let e : is_space c ≡ false = ground arith in
    let f : c == 45 ≡ false = ground arith in
    let g : c == 43 ≡ false = ground arith in rw (e, f, g) refl

-- `int` has 32 bits.
abbrev pub IsInt32 : ℤ → Type 0
IsInt32 (pos n) = n < 2 ^ 31
IsInt32 (negsuc n) = n < 2 ^ 31

-- The decimals of a number: digits of its value, from one to ten.
unfoldable pub Decimal : ℕ → Text → Type 0
Decimal n xs = AllDigits xs × (digits_value 0 xs ≡ n) × (length xs ≤ 10) × (0 < length xs)

pub show_unsigned-Decimal : (n : ℕ) → n < 10 ^ 10 → Decimal n (show_unsigned n)
unfolding Decimal show_unsigned
show_unsigned-Decimal n h = decimal_lem 10 n (omega arith) (inr (omega arith))

strtol-Decimal : (n : ℕ) (xs : Text) → Decimal n xs → strtol xs ≡ to_long false n
unfolding Decimal
strtol-Decimal n [] (all, v, len, nonempty) = absurd (omega arith)
strtol-Decimal n (c ∷ xs) (all, v, len, nonempty) =
    strtol_digits c xs all ∙ ap (λ a. to_long false a) v

strtol_negative : (n : ℕ) (xs : Text) → Decimal n xs → strtol (b'-' ∷ xs) ≡ to_long true n
unfolding Decimal strtol strtol_sign
strtol_negative n xs (all, v, len, nonempty) = ap (λ a. to_long true a) v

-- `strtol` reads back what `%i` writes.
pub strtol-show_int : (z : ℤ) → IsInt32 z → strtol (show_int z) ≡ z
unfolding show_int to_long
strtol-show_int (pos n) small =
    strtol-Decimal n (show_unsigned n) (show_unsigned-Decimal n (omega arith))
    ∙ ap (λ a. pos a) (omega arith)
strtol-show_int (negsuc n) small =
    strtol_negative (suc n) (show_unsigned (suc n)) (show_unsigned-Decimal (suc n) (omega arith))
    ∙ ap (λ a. negsuc a) (omega arith)
