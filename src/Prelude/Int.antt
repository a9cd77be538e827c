-- ===== src/Prelude/Int.antt =====
-- The signed integers that the code returns: `int8_t` codes, `long` values of the parser; and the
-- conversions to narrower types.
use Prim.Native.Nat.{ℕ, ◌-◌, ◌%◌, ◌^◌}
use mathlib.Core.Bool.{Bool, false}
use a76xx.Prelude.Tests.{ltb, ◌==◌, if◌then◌else◌}

-- `negsuc n` is -(n + 1).
pub data ℤ : Type 0 where
  pos : ℕ → ℤ
  negsuc : ℕ → ℤ

-- The low `w` bits, `m = 2 ^ w`, as an unsigned number.
abbrev pub unsigned : ℕ → ℤ → ℕ
unsigned m (pos n) = n % m
unsigned m (negsuc n) = m - 1 - n % m

-- The conversion to a signed type of `w` bits, with `m = 2 ^ w` and `half = 2 ^ (w - 1)`.
abbrev pub signed : ℕ → ℕ → ℤ → ℤ
signed m half z = let u = unsigned m z in if ltb u half then pos u else negsuc (m - 1 - u)

abbrev pub int8 : ℤ → ℤ
int8 z = signed 256 128 z

abbrev pub int32 : ℤ → ℤ
int32 z = signed (2 ^ 32) (2 ^ 31) z

abbrev pub uint8 : ℤ → ℕ
uint8 z = unsigned 256 z

abbrev pub uint16 : ℤ → ℕ
uint16 z = unsigned (2 ^ 16) z

abbrev pub uint32 : ℤ → ℕ
uint32 z = unsigned (2 ^ 32) z

abbrev pub is_zero : ℤ → Bool
is_zero (pos n) = n == 0
is_zero (negsuc n) = false

abbrev pub eq_ℤ : ℤ → ℤ → Bool
eq_ℤ (pos a) (pos b) = a == b
eq_ℤ (negsuc a) (negsuc b) = a == b
eq_ℤ (pos a) (negsuc b) = false
eq_ℤ (negsuc a) (pos b) = false
