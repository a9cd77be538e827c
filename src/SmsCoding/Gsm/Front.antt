-- ===== src/SmsCoding/Gsm/Front.antt =====
-- encodeGSM and decodeGSM of src/utils/smsCoding.cpp on arrays that are longer than the text.
use a76xx.Prelude.{
  ℕ, ◌≤◌, ◌<◌, ◌≡◌, refl, ap, Bool, true, false, none, some, List, arith, length, ◌==◌, take, map,
  length-take, length-map, get_or-take, list_ext,
}
use a76xx.SmsCoding.{decode_loop, decode_gsm, encode_loop, encode_gsm}
use a76xx.SmsCoding.Gsm.{
  encoded, decoded, Puts, encode_loop-Puts, decode_loop-Puts, decode_loop-Puts_input, get_or-map,
}

-- The front of an array behind a loop over `n` characters.
front-map :
    (f : ℕ → ℕ) (n : ℕ) (input out after : List ℕ)
    → n ≤ length out
    → n ≤ length input
    → Puts f 0 n input out after
    → take n after ≡ map f (take n input)
front-map f n input out after h k p =
    list_ext 0 (take n after) (map f (take n input))
      (omega (arith, length-take n after, length-take n input, length-map f (take n input), p.0))
      (λ j hj.
        let small : j < n = omega (arith, length-take n after) in
        let in_front : j < length (take n input) = omega (arith, length-take n input) in
        ground (
          arith,
          get_or-take n after j 0,
          p.1 j,
          get_or-map f (take n input) j in_front,
          ap f (get_or-take n input j 0 small),
        ))

-- encodeGSM writes the codes of the first `n` characters to the front of the output.
pub encode_gsm-front :
    (s : Bool) (input out : List ℕ) (n : ℕ)
    → 0 < n
    → n ≤ length out
    → n ≤ length input
    → (code : List ℕ) × ((encode_gsm s input false (some out) n).2 ≡ some code)
      × (length code ≡ length out)
      × (take n code ≡ map (encoded s) (take n input))
unfolding encode_gsm
encode_gsm-front s input out n pos h k =
    let f : (n == 0) ≡ false = ground arith in
    let p = encode_loop-Puts s n 0 input out (omega arith) in
    rw f ((encode_loop s false 0 n (input, out)).1, refl, p.0, front-map _ n input out _ h k p)

-- decodeGSM changes no length, and writes the characters of the first `n` codes to the front.
pub decode_gsm-front :
    (input out : List ℕ) (n : ℕ)
    → n ≤ length input
    → n ≤ length out
    → (text : List ℕ) × ((decode_gsm input n false (some out)).1 ≡ some text)
      × (length text ≡ length out)
      × (take n text ≡ map decoded (take n input))
unfolding decode_gsm
decode_gsm-front input out n h k =
    let p = decode_loop-Puts n 0 input out (omega arith) in
    ((decode_loop false 0 n (input, out)).1, refl, p.0, front-map _ n input out _ k h p)

pub decode_gsm-in_place :
    (input : List ℕ) (n : ℕ)
    → n ≤ length input
    → (length (decode_gsm input n true none).0 ≡ length input)
      × (take n (decode_gsm input n true none).0 ≡ map decoded (take n input))
unfolding decode_gsm
decode_gsm-in_place input n h =
    let p = decode_loop-Puts_input n 0 input List.[] (omega arith) in
    (p.0, front-map _ n input input _ h h p)
