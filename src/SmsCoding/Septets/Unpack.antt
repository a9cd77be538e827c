-- ===== src/SmsCoding/Septets/Unpack.antt =====
-- unpack7Bit as the digits, in base 128, of the number that the bytes stand for.
use native.Mathlib.Decide.{dec_lt}
use a76xx.Prelude.{
  lt→ltb, ℕ, zero, suc, ◌+◌, ◌-◌, ◌*◌, ◌/◌, ◌%◌, ◌^◌, ◌<◌, bit_and, bit_or, ◌≡◌, refl, ap, ◌∙◌, sym,
  false, List, [], ◌∷◌, arith, ltb, ◌==◌,
}
use a76xx.Prelude.Bits.{bit_or_shifted, bit_and_mask}
use a76xx.SmsCoding.{unpack_loop, unpack7_bit}
use a76xx.SmsCoding.Septets.Value.{bytes_value, septets, AllBytes, pow_plus7, pow_plus8}

-- The 14 bits in use fit: an exponent below 7 keeps a shifted byte below `2 ^ 15`.
shifted_fits : (b k : ℕ) → b < 256 → k < 7 → b * 2 ^ k % 2 ^ 32 ≡ b * 2 ^ k
shifted_fits b zero hb hk = omega arith
shifted_fits b (suc zero) hb hk = omega arith
shifted_fits b (suc (suc zero)) hb hk = omega arith
shifted_fits b (suc (suc (suc zero))) hb hk = omega arith
shifted_fits b (suc (suc (suc (suc zero)))) hb hk = omega arith
shifted_fits b (suc (suc (suc (suc (suc zero))))) hb hk = omega arith
shifted_fits b (suc (suc (suc (suc (suc (suc zero)))))) hb hk = omega arith
shifted_fits b (suc (suc (suc (suc (suc (suc (suc k))))))) hb hk = absurd (omega arith)

-- A value with `k + 7` bits behind it loses 7 of them.
drop7 :
    (buf k w : ℕ)
    → ((buf + 2 ^ (k + 7) * w) % 128 ≡ buf % 128)
      × ((buf + 2 ^ (k + 7) * w) / 128 ≡ buf / 128 + 2 ^ k * w)
drop7 buf k w =
    let e : 2 ^ (k + 7) * w ≡ 128 * (2 ^ k * w) = rw (pow_plus7 k) (grind arith) in
    rw e (omega arith, omega arith)

-- One character is taken from a buffer that holds at least 7 bits.
take_septet :
    (buf k : ℕ) (rest : List ℕ) (n : ℕ)
    → unpack_loop (buf / 128) k rest n ≡ septets n (buf / 128 + 2 ^ k * bytes_value rest)
    → bit_and (buf % 256) 0x7f ∷ unpack_loop (buf / 128) k rest n
      ≡ septets (suc n) (buf + 2 ^ (k + 7) * bytes_value rest)
take_septet buf k rest n ih =
    let d = drop7 buf k (bytes_value rest) in
    let e : buf % 256 % 128 ≡ buf % 128 = omega arith in
    rw (d.0, d.1, bit_and_mask 7 (buf % 256), e, ih)

div_fits : (buf k : ℕ) → buf < 2 ^ (k + 7) → buf / 128 < 2 ^ k
div_fits buf k h = omega (arith, pow_plus7 k)

-- A byte that is loaded above `k` bits.
load_byte :
    (buf k b w : ℕ)
    → b < 256
    → k < 7
    → buf < 2 ^ k
    → (bit_or buf (b * 2 ^ k % 2 ^ 32) ≡ buf + b * 2 ^ k)
      × (buf + b * 2 ^ k < 2 ^ (k + 1 + 7))
      × (buf + 2 ^ k * (b + 256 * w) ≡ buf + b * 2 ^ k + 2 ^ (k + 1 + 7) * w)
load_byte buf k b w hb hk hv =
    let e : k + 1 + 7 ≡ k + 8 = omega arith in
    let p = pow_plus8 k in
    rw (e, p) (rw (shifted_fits b k hb hk) (bit_or_shifted k buf b hv), grind arith, grind arith)

-- The loop of unpack7Bit gives the lowest digits of the buffer with the unread bytes above it.
unpack_loop_lem :
    (n buf bits : ℕ) (input : List ℕ)
    → AllBytes input
    → bits < 15
    → buf < 2 ^ bits
    → unpack_loop buf bits input n ≡ septets n (buf + 2 ^ bits * bytes_value input)
unfolding unpack_loop
unpack_loop_lem zero buf bits input a hb hv = refl
unpack_loop_lem (suc n) buf bits [] a hb hv = elim (dec_lt bits 7) [
  | yes few ↦
      let l = load_byte buf bits 0 0 (omega arith) few hv in
      let e : bits + 8 - 7 ≡ bits + 1 = omega arith in
      let z : buf + 0 * 2 ^ bits ≡ buf = omega arith in
      let ih =
        unpack_loop_lem n (buf / 128) (bits + 1) [] tt (omega arith)
          (div_fits buf (bits + 1) (rw z at l.1)) in
      rw (lt→ltb bits 7 few, e)
        (rw (l.0 ∙ z) (take_septet buf (bits + 1) [] n ih ∙ ap (septets (suc n)) (omega arith)))
  | no many ↦
      let f : ltb bits 7 ≡ false = ground arith in
      let e : bits - 7 + 7 ≡ bits = omega arith in
      let ih =
        unpack_loop_lem n (buf / 128) (bits - 7) [] tt (omega arith)
          (div_fits buf (bits - 7) (rw e hv)) in
      rw f (take_septet buf (bits - 7) [] n ih ∙ ap (λ t. septets (suc n) (buf + 2 ^ t * 0)) e)
]
unpack_loop_lem (suc n) buf bits (b ∷ bs) a hb hv = elim (dec_lt bits 7) [
  | yes few ↦
      let l = load_byte buf bits b (bytes_value bs) a.0 few hv in
      let e : bits + 8 - 7 ≡ bits + 1 = omega arith in
      let ih =
        unpack_loop_lem n ((buf + b * 2 ^ bits) / 128) (bits + 1) bs a.1 (omega arith)
          (div_fits (buf + b * 2 ^ bits) (bits + 1) l.1) in
      rw (lt→ltb bits 7 few, e)
        (rw l.0
          (take_septet (buf + b * 2 ^ bits) (bits + 1) bs n ih ∙ ap (septets (suc n)) (sym l.2)))
  | no many ↦
      let f : ltb bits 7 ≡ false = ground arith in
      let e : bits - 7 + 7 ≡ bits = omega arith in
      let ih =
        unpack_loop_lem n (buf / 128) (bits - 7) (b ∷ bs) a (omega arith)
          (div_fits buf (bits - 7) (rw e hv)) in
      rw f (
        take_septet buf (bits - 7) (b ∷ bs) n ih
        ∙ ap (λ t. septets (suc n) (buf + 2 ^ t * bytes_value (b ∷ bs))) e)
]

-- Fill bits are cut off the first byte.
split_fill :
    (b w fill : ℕ)
    → b < 256
    → fill < 8
    → ((b + 256 * w) / 2 ^ fill ≡ b / 2 ^ fill + 2 ^ (8 - fill) * w)
      × (b / 2 ^ fill < 2 ^ (8 - fill))
split_fill b w zero hb h = (omega arith, omega arith)
split_fill b w (suc zero) hb h = (omega arith, omega arith)
split_fill b w (suc (suc zero)) hb h = (omega arith, omega arith)
split_fill b w (suc (suc (suc zero))) hb h = (omega arith, omega arith)
split_fill b w (suc (suc (suc (suc zero)))) hb h = (omega arith, omega arith)
split_fill b w (suc (suc (suc (suc (suc zero))))) hb h = (omega arith, omega arith)
split_fill b w (suc (suc (suc (suc (suc (suc zero)))))) hb h = (omega arith, omega arith)
split_fill b w (suc (suc (suc (suc (suc (suc (suc zero))))))) hb h = (omega arith, omega arith)
split_fill b w (suc (suc (suc (suc (suc (suc (suc (suc k)))))))) hb h = absurd (omega arith)

pub zero-div-pow : (fill : ℕ) → fill < 8 → 0 / 2 ^ fill ≡ 0
zero-div-pow fill h = omega (arith, split_fill 0 0 fill (omega arith) h)

-- unpack7Bit gives the digits of the number behind the fill bits.
pub unpack7_bit_lem :
    (n fill : ℕ) (input : List ℕ)
    → AllBytes input
    → fill < 8
    → unpack7_bit input n fill ≡ septets n (bytes_value input / 2 ^ fill)
unfolding unpack7_bit
unpack7_bit_lem n zero input a h =
    unpack_loop_lem n 0 0 input a (omega arith) (omega arith) ∙ ap (septets n) (omega arith)
unpack7_bit_lem n (suc fill) [] a h =
    let f : (suc fill == 0) ≡ false = ground arith in
    let s = split_fill 0 0 (suc fill) (omega arith) h in
    rw f (
      unpack_loop_lem n (0 / 2 ^ suc fill) (8 - suc fill) [] tt (omega arith) s.1
      ∙ ap (septets n) (sym s.0))
unpack7_bit_lem n (suc fill) (b ∷ bs) a h =
    let f : (suc fill == 0) ≡ false = ground arith in
    let s = split_fill b (bytes_value bs) (suc fill) a.0 h in
    rw f (
      unpack_loop_lem n (b / 2 ^ suc fill) (8 - suc fill) bs a.1 (omega arith) s.1
      ∙ ap (septets n) (sym s.0))
