-- ===== src/Prelude/Bits.antt =====
-- `&` with a mask of low bits and `|` of disjoint fields as arithmetic, at every width, and the
-- evaluation of a test over a range.
mod Digits
use Digits.{low_digit_or, low_digit_and}
use Prim.Native.Nat.{ℕ, zero, suc, ◌+◌, ◌-◌, ◌*◌, ◌/◌, ◌%◌, ◌^◌, ◌<◌, bit_and, bit_or}
use mathlib.Core.Path.{◌≡◌, refl, ap}
use mathlib.Core.Bool.{Bool, true, ◌&&◌}
use native.Mathlib.Nat.{pow-suc, one-le-pow, div-add-mod}
use native.Mathlib.Omega.{arith}

-- Whether a test succeeds at every number under a bound.
unfoldable pub holds_under : ℕ → (ℕ → Bool) → Bool
holds_under (suc bound) test = holds_under bound test && test bound
holds_under zero test = true

pub holds_under_sound :
    (bound : ℕ) (test : ℕ → Bool) (n : ℕ)
    → holds_under bound test ≡ true
    → n < bound
    → test n ≡ true
unfolding holds_under
holds_under_sound (suc bound) test n all below = ground (arith, holds_under_sound bound test n)
holds_under_sound zero test n all below = absurd (omega arith)

-- Halving a number ends at 0: `2 ^ fuel` above it is enough.
or_zero_fuel : (fuel a : ℕ) → a < suc fuel → bit_or a 0 ≡ a
or_zero_fuel fuel zero h = refl
or_zero_fuel zero (suc a) h = absurd (omega arith)
or_zero_fuel (suc fuel) (suc a) h =
    omega (arith, low_digit_or (suc a) 0, or_zero_fuel fuel (suc a / 2) (omega arith))

and_zero_fuel : (fuel a : ℕ) → a < suc fuel → bit_and a 0 ≡ 0
and_zero_fuel fuel zero h = refl
and_zero_fuel zero (suc a) h = absurd (omega arith)
and_zero_fuel (suc fuel) (suc a) h =
    omega (arith, low_digit_and (suc a) 0, and_zero_fuel fuel (suc a / 2) (omega arith))

pub bit_or-zero : (a : ℕ) → bit_or a 0 ≡ a
bit_or-zero a = or_zero_fuel a a (omega arith)

zero-bit_or : (b : ℕ) → bit_or 0 b ≡ b
zero-bit_or b = go b b (omega arith)
  where
    go : (fuel b : ℕ) → b < suc fuel → bit_or 0 b ≡ b
    go fuel zero h = refl
    go zero (suc b) h = absurd (omega arith)
    go (suc fuel) (suc b) h =
        omega (arith, low_digit_or 0 (suc b), go fuel (suc b / 2) (omega arith))

shift_suc : (q k : ℕ) → q * 2 ^ suc k ≡ 2 * (q * 2 ^ k)
shift_suc q k = omega (arith, ap (λ (t : ℕ). q * t) (pow-suc 2 k))

-- `r | (q << k)` is a sum when `r` has `k` bits at most.
pub bit_or_shifted : (k r q : ℕ) → r < 2 ^ k → bit_or r (q * 2 ^ k) ≡ r + q * 2 ^ k
bit_or_shifted zero zero q h = ground (arith, zero-bit_or q)
bit_or_shifted zero (suc r) q h = absurd (omega arith)
bit_or_shifted (suc k) r q h = ground (
  arith,
  low_digit_or r (q * 2 ^ suc k),
  shift_suc q k,
  pow-suc 2 k,
  bit_or_shifted k (r / 2) q (omega (arith, pow-suc 2 k)),
)

-- The same with the shifted field on the left.
pub shifted_bit_or : (k q r : ℕ) → r < 2 ^ k → bit_or (q * 2 ^ k) r ≡ q * 2 ^ k + r
shifted_bit_or zero q zero h = ground (arith, bit_or-zero q)
shifted_bit_or zero q (suc r) h = absurd (omega arith)
shifted_bit_or (suc k) q r h = ground (
  arith,
  low_digit_or (q * 2 ^ suc k) r,
  shift_suc q k,
  pow-suc 2 k,
  shifted_bit_or k q (r / 2) (omega (arith, pow-suc 2 k)),
)

-- A mask of `k` low bits cuts off what stands above them.
and_low_field : (k q r : ℕ) → r < 2 ^ k → bit_and (r + q * 2 ^ k) (2 ^ k - 1) ≡ r
and_low_field zero q r h =
    ground (arith, and_zero_fuel (r + q * 2 ^ 0) (r + q * 2 ^ 0) (omega arith))
and_low_field (suc k) q r h = ground (
  arith,
  and_low_field k q (r / 2) (omega (arith, pow-suc 2 k)),
  low_digit_and (r + q * 2 ^ suc k) (2 ^ suc k - 1),
  pow-suc 2 k,
  shift_suc q k,
)

-- Such a mask is the remainder by `2 ^ k`.
pub bit_and_mask : (k a : ℕ) → bit_and a (2 ^ k - 1) ≡ a % 2 ^ k
bit_and_mask k a =
    ground (arith, and_low_field k (a / 2 ^ k) (a % 2 ^ k), one-le-pow k 2, div-add-mod a (2 ^ k))
