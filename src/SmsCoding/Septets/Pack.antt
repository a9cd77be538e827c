-- ===== src/SmsCoding/Septets/Pack.antt =====
-- pack7Bit as the bytes of the number that the characters stand for, and its fuel.
use native.Mathlib.Decide.{dec_lt}
use a76xx.Prelude.{
  lt→ltb, ℕ, zero, suc, ◌+◌, ◌-◌, ◌*◌, ◌/◌, ◌%◌, ◌^◌, ◌≤◌, ◌<◌, bit_and, bit_or, ◌≡◌, ◌⊎◌, inl, inr,
  refl, ap, ◌∙◌, sym, true, false, not, ◌||◌, Option, none, some, List, [], ◌∷◌, arith, ltb, ◌==◌,
  if◌then◌else◌, length,
}
use a76xx.Prelude.Bits.{bit_or_shifted, bit_and_mask}
use a76xx.SmsCoding.{fill_buffer, is_nil, pack_loop}
use a76xx.SmsCoding.Septets.Value.{bytes_value, septets_value, AllBytes, pow_plus7, pow_plus8}

-- What the inner loop of pack7Bit leaves: the same number, and a full byte or no characters.
pub record Filled (buf bits : ℕ) (input : List ℕ) (out : ℕ × ℕ × List ℕ) : Type 0 where
  pub value : out.0 + 2 ^ out.1 * septets_value out.2 ≡ buf + 2 ^ bits * septets_value input
  pub fits : out.0 < 2 ^ out.1
  pub room : out.1 < 15
  pub count : out.1 + 7 * length out.2 ≡ bits + 7 * length input
  pub full : (8 ≤ out.1) ⊎ (out.2 ≡ [])
  pub grown : bits ≤ out.1
  pub progress : bits < 8 → (input ≡ []) ⊎ (length out.2 < length input)

pow_below8 : (k : ℕ) → k < 8 → 2 ^ k ≤ 128
pow_below8 zero h = omega arith
pow_below8 (suc zero) h = omega arith
pow_below8 (suc (suc zero)) h = omega arith
pow_below8 (suc (suc (suc zero))) h = omega arith
pow_below8 (suc (suc (suc (suc zero)))) h = omega arith
pow_below8 (suc (suc (suc (suc (suc zero))))) h = omega arith
pow_below8 (suc (suc (suc (suc (suc (suc zero)))))) h = omega arith
pow_below8 (suc (suc (suc (suc (suc (suc (suc zero))))))) h = omega arith
pow_below8 (suc (suc (suc (suc (suc (suc (suc (suc k)))))))) h = absurd (omega arith)

load_septet :
    (buf k c w : ℕ)
    → k < 8
    → buf < 2 ^ k
    → (bit_or buf (bit_and c 0x7f * 2 ^ k) % 2 ^ 16 ≡ buf + c % 128 * 2 ^ k)
      × (buf + c % 128 * 2 ^ k < 2 ^ (k + 7))
      × (buf + 2 ^ k * (c % 128 + 128 * w) ≡ buf + c % 128 * 2 ^ k + 2 ^ (k + 7) * w)
load_septet buf k c w hk hv =
    let p = pow_plus7 k in
    let small : buf + c % 128 * 2 ^ k < 128 * 2 ^ k = grind arith in
    let bound : 128 * 2 ^ k < 2 ^ 16 = omega (arith, pow_below8 k) in
    rw (p, bit_and_mask 7 c, bit_or_shifted k buf (c % 2 ^ 7) hv) (omega arith, small, grind arith)

fill_buffer_lem :
    (buf bits : ℕ) (input : List ℕ)
    → bits < 15
    → buf < 2 ^ bits
    → Filled buf bits input (fill_buffer buf bits input)
unfolding fill_buffer
fill_buffer_lem buf bits [] hb hv = record {
  value = refl;
  fits = hv;
  room = hb;
  count = refl;
  full = inr refl;
  grown = omega arith;
  progress = λ h. inl refl;
}
fill_buffer_lem buf bits (c ∷ cs) hb hv = elim (dec_lt bits 8) [
  | yes few ↦
      let l = load_septet buf bits c (septets_value cs) few hv in
      let ih = fill_buffer_lem (buf + c % 128 * 2 ^ bits) (bits + 7) cs (omega arith) l.1 in
      rw (lt→ltb bits 8 few) (
        rw l.0 (record {
          value = ih.value ∙ sym l.2;
          fits = ih.fits;
          room = ih.room;
          count = omega (arith, ih.count);
          full = ih.full;
          grown = omega (arith, ih.grown);
          progress = λ h. inr (omega (arith, ih.count, ih.grown));
        }))
  | no many ↦
      let f : ltb bits 8 ≡ false = ground arith in
      rw f (record {
        value = refl;
        fits = hv;
        room = hb;
        count = refl;
        full = inl (omega arith);
        grown = omega arith;
        progress = λ h. absurd (omega arith);
      })
]

-- The number of bytes for `total` bits: one at least.
abbrev pub byte_count : ℕ → ℕ
byte_count total = if total == 0 then 1 else (total + 7) / 8

-- What pack7Bit writes from a state of its outer loop: the bytes of the number that the buffer and
-- the characters stand for.
pub record Packed (buf bits : ℕ) (input : List ℕ) (out : List ℕ) : Type 0 where
  pub value : bytes_value out ≡ buf + 2 ^ bits * septets_value input
  pub bytes : AllBytes out
  pub count : length out ≡ byte_count (bits + 7 * length input)

-- One byte goes out of a buffer that is full, or holds the last bits.
emit :
    (buf bits : ℕ)
    → (8 ≤ bits)
    → bits < 15
    → buf < 2 ^ bits
    → (buf / 256 < 2 ^ (bits - 8))
      × ((w : ℕ) → buf % 256 + 256 * (buf / 256 + 2 ^ (bits - 8) * w) ≡ buf + 2 ^ bits * w)
emit buf bits h hb hv =
    let e : bits - 8 + 8 ≡ bits = omega arith in
    let p : 2 ^ bits ≡ 256 * 2 ^ (bits - 8) = ap (λ t. 2 ^ t) (sym e) ∙ pow_plus8 (bits - 8) in
    rw p (omega (arith, p), λ w. grind arith)

-- The rest of one round of the outer loop, once the buffer is filled.
abbrev pub round_out : ℕ → ℕ → List ℕ → Option (List ℕ) → Option (List ℕ)
round_out buffer bits rest again =
    elim (ltb 0 (bits - (if ltb bits 8 then bits else 8)) || not (is_nil rest)) [
      | true ↦ elim again [ none ↦ none | some out ↦ some (bit_and buffer 0xff ∷ out) ]
      | false ↦ some (bit_and buffer 0xff ∷ [])
    ]

abbrev pub Result : ℕ → ℕ → List ℕ → Option (List ℕ) → Type 0
Result buf bits input o = (out : List ℕ) × (o ≡ some out) × Packed buf bits input out

last_byte : (b k : ℕ) → k ≤ 8 → b < 2 ^ k → b < 256
last_byte b k h hv = elim (dec_lt k 8) [
  | yes p ↦ omega (arith, pow_below8 k p)
  | no p ↦ let e : k ≡ 8 = omega arith in rw e at hv
]

round_out_last :
    (b k : ℕ) (again : Option (List ℕ)) → k ≤ 8 → b < 2 ^ k → Result b k [] (round_out b k [] again)
round_out_last b k again h hv =
    let small = last_byte b k h hv in
    (
      b % 256 ∷ [],
      ground (arith, bit_and_mask 8 b),
      record { value = omega arith; bytes = (omega arith, tt); count = ground arith },
    )

round_out_more :
    (b k : ℕ) (rest : List ℕ) (again : Option (List ℕ))
    → 8 ≤ k
    → k < 15
    → b < 2 ^ k
    → 0 < k - 8 + 7 * length rest
    → Result (b / 256) (k - 8) rest again
    → Result b k rest (round_out b k rest again)
round_out_more b k rest again h hk hv more (out, e, p) =
    let em = emit b k h hk hv in
    (
      b % 256 ∷ out,
      ground (arith, bit_and_mask 8 b, nonempty rest),
      record {
        value = ap (λ (t : ℕ). b % 256 + 256 * t) p.value ∙ em.1 (septets_value rest);
        bytes = (omega arith, p.bytes);
        count = ground (arith, p.count);
      },
    )
  where
    nonempty : (rest : List ℕ) → 0 < length rest → is_nil rest ≡ false
    nonempty [] h = absurd (omega arith)
    nonempty (x ∷ xs) h = refl

round_out_total :
    (b k : ℕ) (rest : List ℕ) (again : Option (List ℕ))
    → k < 15
    → b < 2 ^ k
    → (8 ≤ k) ⊎ (rest ≡ [])
    → (8 ≤ k → Result (b / 256) (k - 8) rest again)
    → Result b k rest (round_out b k rest again)
round_out_total b k [] again hk hv full more = elim (dec_lt 8 k) [
  | yes p ↦ round_out_more b k [] again (omega arith) hk hv (omega arith) (more (omega arith))
  | no p ↦ round_out_last b k again (omega arith) hv
]
round_out_total b k (x ∷ xs) again hk hv (inl p) more =
    round_out_more b k (x ∷ xs) again p hk hv (omega arith) (more p)
round_out_total b k (x ∷ xs) again hk hv (inr e) more = cc

Packed-Filled :
    {buf bits : ℕ} {input : List ℕ} {o : Option (List ℕ)} (b k : ℕ) (rest : List ℕ)
    → Filled buf bits input (b, k, rest)
    → Result b k rest o
    → Result buf bits input o
Packed-Filled b k rest f (out, e, p) = (
  out,
  e,
  record { value = p.value ∙ f.value; bytes = p.bytes; count = p.count ∙ ap byte_count f.count },
)

-- Fuel above the number of characters is enough for pack7Bit, and its bytes are those of the number.
pub pack_loop_total :
    (fuel buf bits : ℕ) (input : List ℕ)
    → length input < fuel
    → bits < 8
    → buf < 2 ^ bits
    → Result buf bits input (pack_loop fuel buf bits input)
unfolding pack_loop
pack_loop_total zero buf bits input hf hb hv = absurd (omega arith)
pack_loop_total (suc fuel) buf bits input hf hb hv =
    let f = fill_buffer_lem buf bits input (omega arith) hv in
    let b = (fill_buffer buf bits input).0 in
    let k = (fill_buffer buf bits input).1 in
    let rest = (fill_buffer buf bits input).2 in
    let again = pack_loop fuel (b / 2 ^ 8) (k - (if ltb k 8 then k else 8)) rest in
    Packed-Filled b k rest f (
      round_out_total b k rest again f.room f.fits f.full (λ h.
        let e : k - (if ltb k 8 then k else 8) ≡ k - 8 = ground arith in
        let short : length rest < fuel =
          shorter input (length rest) k hf h f.count (f.progress hb) in
        rw e (
          pack_loop_total fuel (b / 256) (k - 8) rest short (let r = f.room in omega arith)
            (emit b k h f.room f.fits).0)))
  where
    shorter :
        (cs : List ℕ) (n k : ℕ)
        → length cs < suc fuel
        → 8 ≤ k
        → k + 7 * n ≡ bits + 7 * length cs
        → (cs ≡ []) ⊎ (n < length cs)
        → n < fuel
    shorter cs n k hc h c (inl e) = absurd (omega (arith, ap (λ (l : List ℕ). length l) e))
    shorter cs n k hc h c (inr l) = omega arith
