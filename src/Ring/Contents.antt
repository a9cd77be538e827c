-- ===== src/Ring/Contents.antt =====
-- The abstract view of the ring: the bytes that it holds, oldest first.
use native.Mathlib.Decide.{dec_lt}
use native.Mathlib.Nat.{mod-eq_of_lt, mod-eq-sub-mod}
use a76xx.Prelude.{
  ℕ, ◌+◌, ◌-◌, ◌%◌, ◌^◌, ◌≤◌, ◌<◌, ◌≡◌, ◌⊎◌, inl, inr, refl, ap, ◌∙◌, List, [], arith, length,
  get_or, tabulate, length-tabulate, get_or-tabulate,
}
use a76xx.Ring.{ByteRingBuf, init, get_used, byte_at, clear}
use a76xx.Ring.Inv.{IsValid}

abbrev pub contents : ByteRingBuf → List ℕ
contents r = tabulate 0 (get_used r) (byte_at r)

pub length-contents : (r : ByteRingBuf) → length (contents r) ≡ get_used r
length-contents r = length-tabulate 0 (get_used r) (byte_at r)

-- An index just past the end of the buffer goes round once.
pub mod_cases : (x n : ℕ) → x < n + n → ((x < n) × (x % n ≡ x)) ⊎ ((n ≤ x) × (x % n ≡ x - n))
mod_cases x n h = elim (dec_lt x n) [
  | yes p ↦ inl (p, mod-eq_of_lt p)
  | no p ↦ inr (
    omega arith,
    (mod-eq-sub-mod {n = x} {m = n} (omega arith) ∙ mod-eq_of_lt {n = x - n} {m = n} (omega arith)),
  )
]

pub get_or-contents :
    (r : ByteRingBuf) (i : ℕ) → i < get_used r → get_or (contents r) i 0 ≡ byte_at r i
get_or-contents r i h =
    get_or-tabulate 0 (get_used r) (byte_at r) i 0 h ∙ ap (byte_at r) (omega arith)

-- The byte at a position is in the buffer, past its end once at most.
pub byte_at_cases :
    {r : ByteRingBuf} (i : ℕ)
    → IsValid r
    → i < r.size
    → ((r.tail + i < r.size) × (byte_at r i ≡ get_or r.buf (r.tail + i) 0))
      ⊎ ((r.size ≤ r.tail + i) × (byte_at r i ≡ get_or r.buf (r.tail + i - r.size) 0))
byte_at_cases {r} i v h =
    let e : (r.tail + i) % 2 ^ 32 ≡ r.tail + i = omega arith in
    rw e (elim (mod_cases (r.tail + i) r.size (omega arith)) [
      | inl c ↦ inl (c.0, ap (λ j. get_or r.buf j 0) c.1)
      | inr c ↦ inr (c.0, ap (λ j. get_or r.buf j 0) c.1)
    ])

-- A new ring and a cleared one are empty.
pub contents-init : (n : ℕ) → contents (init n) ≡ []
unfolding init get_used
contents-init n = refl

pub contents-clear : (r : ByteRingBuf) → contents (clear r) ≡ []
unfolding clear get_used
contents-clear r = refl
