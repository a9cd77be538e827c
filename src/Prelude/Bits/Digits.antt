-- ===== src/Prelude/Bits/Digits.antt =====
-- The lowest binary digit of `bit_or` and `bit_and`: their definition recurs on digits with fuel,
-- and these equations are free of it.
use Prim.Native.Nat.{ℕ, zero, suc, ◌+◌, ◌*◌, ◌/◌, ◌%◌, ◌≤◌, min, max, digits, bit_and, bit_or}
use Prim.Native.Nat.{bitwise, bit_and-bitwise, bit_or-bitwise}
use mathlib.Core.Path.{◌≡◌, refl}
use native.Mathlib.Omega.{arith}

-- `rest` is what remains of the second number when the first is used up.
module _ (rest : ℕ → ℕ) (join : ℕ → ℕ → ℕ) where
  digits_any_fuel : (m n a b : ℕ) → a ≤ n → a ≤ m → digits rest join n a b ≡ digits rest join m a b
  digits_any_fuel m zero (suc a) b p q = absurd (omega arith)
  digits_any_fuel zero n (suc a) b p q = absurd (omega arith)
  digits_any_fuel zero zero zero b p q = refl
  digits_any_fuel zero (suc n) zero b p q = refl
  digits_any_fuel (suc m) zero zero b p q = refl
  digits_any_fuel (suc m) (suc n) zero b p q = refl
  digits_any_fuel (suc m) (suc n) (suc a) b p q =
      rw (digits_any_fuel m n (suc a / 2) (b / 2) (omega arith) (omega arith))

  low_digit :
      (a b : ℕ)
      → bitwise rest join (suc a) b
        ≡ bitwise rest join (suc a / 2) (b / 2) * 2 + join (suc a % 2) (b % 2)
  low_digit a b =
      omega (arith, digits_any_fuel (suc a / 2) a (suc a / 2) (b / 2) (omega arith) (omega arith))

pub low_digit_or : (a b : ℕ) → bit_or a b ≡ bit_or (a / 2) (b / 2) * 2 + max (a % 2) (b % 2)
low_digit_or zero b = simp bit_or-bitwise (omega arith)
low_digit_or (suc a) b = simp bit_or-bitwise (low_digit (λ y. y) max a b)

pub low_digit_and : (a b : ℕ) → bit_and a b ≡ bit_and (a / 2) (b / 2) * 2 + min (a % 2) (b % 2)
low_digit_and zero b = simp bit_and-bitwise (omega arith)
low_digit_and (suc a) b = simp bit_and-bitwise (low_digit (λ y. 0) min a b)
