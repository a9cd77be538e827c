-- ===== src/SmsCoding/Gsm.antt =====
-- encodeGSM and decodeGSM character by character, and the text that survives both.
pub mod Front
use a76xx.Prelude.{
  ℕ, zero, suc, ◌+◌, ◌≤◌, ◌<◌, ◌≡◌, refl, ap, ◌∙◌, sym, Bool, true, false, not, ◌&&◌, ◌||◌, none,
  some, ◌⊎◌, inl, inr, List, [], ◌∷◌, arith, ltb, leb, ◌==◌, ==_iff, if◌then◌else◌, length, get_or,
  set, map, get_or-set, length-set, list_ext, length-map,
}
use a76xx.Prelude.Bits.{holds_under, holds_under_sound}
use a76xx.SmsCoding.{
  decode_replace, decode_loop, decode_gsm, encode_replace, replaces, encode_loop, encode_gsm,
}

-- The characters on which the two codes agree on this device: printable ASCII but for the
-- characters without a place in the 7-bit alphabet as it is mapped here, line feed, return.
abbrev pub is_supported : ℕ → Bool
is_supported c =
    (leb 0x20 c && leb c 0x5a) || (leb 0x61 c && leb c 0x7a) || c == 0x0a || c == 0x0d || c == b'_'

-- What the two functions make of one character.
abbrev pub decoded : ℕ → ℕ
decoded c = if not (decode_replace c == 0) then decode_replace c else c

abbrev pub encoded : Bool → ℕ → ℕ
encoded char_is_signed c =
    if replaces char_is_signed (encode_replace c) then encode_replace c else c

-- A text in which the characters that are not supported are question marks.
abbrev pub sanitized : ℕ → ℕ
sanitized c = if is_supported c then c else b'?'

char_test : ℕ → Bool
char_test c = decoded (encoded false c) == sanitized c

char_table : holds_under 256 char_test ≡ true
unfolding holds_under char_test decode_replace encode_replace
char_table = refl

decoded-encoded : (c : ℕ) → c < 256 → decoded (encoded false c) ≡ sanitized c
unfolding char_test
decoded-encoded c h =
    (==_iff (decoded (encoded false c)) (sanitized c)).0
      (holds_under_sound 256 char_test c char_table h)

-- The elements of an array after a loop has put `f` of the characters at `i`, ..., `i + n - 1`.
abbrev pub Puts : (ℕ → ℕ) → ℕ → ℕ → List ℕ → List ℕ → List ℕ → Type 0
Puts f i n input before after =
    (length after ≡ length before)
    × ((j : ℕ)
        → get_or after j 0
          ≡ (if leb i j && ltb j (i + n) then f (get_or input j 0) else get_or before j 0))

-- One more character in front.
Puts-step :
    (f : ℕ → ℕ) (i n : ℕ) (input before mid after : List ℕ)
    → length mid ≡ length before
    → ((j : ℕ) → get_or mid j 0 ≡ (if i == j then f (get_or input i 0) else get_or before j 0))
    → Puts f (i + 1) n input mid after
    → Puts f i (suc n) input before after
Puts-step f i n input before mid after e m p =
    (p.0 ∙ e, λ j. ground (arith, p.1 j, m j, ap (λ k. f (get_or input k 0)) (same j)))
  where
    same : (j : ℕ) → j ≡ j
    same j = refl

Puts-nil : (f : ℕ → ℕ) (i : ℕ) (input out : List ℕ) → Puts f i 0 input out out
Puts-nil f i input out = (refl, λ j. ground arith)

pub decode_loop-Puts :
    (n i : ℕ) (input out : List ℕ)
    → i + n ≤ length out
    → Puts decoded i n input out (decode_loop false i n (input, out)).1
unfolding decode_loop
decode_loop-Puts zero i input out h = Puts-nil decoded i input out
decode_loop-Puts (suc n) i input out h =
    let v = decoded (get_or input i 0) in
    Puts-step decoded i n input out (set out i v) _ (length-set out i v)
      (λ j. get_or-set out i v j 0 (omega arith))
      (decode_loop-Puts n (i + 1) input (set out i v) (omega (arith, length-set out i v)))

pub encode_loop-Puts :
    (s : Bool) (n i : ℕ) (input out : List ℕ)
    → i + n ≤ length out
    → Puts (encoded s) i n input out (encode_loop s false i n (input, out)).1
unfolding encode_loop
encode_loop-Puts s zero i input out h = Puts-nil (encoded s) i input out
encode_loop-Puts s (suc n) i input out h =
    let v = encoded s (get_or input i 0) in
    Puts-step (encoded s) i n input out (set out i v) _ (length-set out i v)
      (λ j. get_or-set out i v j 0 (omega arith))
      (encode_loop-Puts s n (i + 1) input (set out i v) (omega (arith, length-set out i v)))

-- The overwritten input: what is read at an index has not been written yet.
pub decode_loop-Puts_input :
    (n i : ℕ) (input : List ℕ) (out : List ℕ)
    → i + n ≤ length input
    → Puts decoded i n input input (decode_loop true i n (input, out)).0
unfolding decode_loop
decode_loop-Puts_input zero i input out h = Puts-nil decoded i input input
decode_loop-Puts_input (suc n) i input out h =
    let c = get_or input i 0 in
    let mid = if not (decode_replace c == 0) then set input i (decode_replace c) else input in
    let len : length mid ≡ length input = ground (arith, length-set input i (decode_replace c)) in
    let ih = decode_loop-Puts_input n (i + 1) mid out (omega (arith, len)) in
    (ih.0 ∙ len, λ j. ground (arith, ih.1 j, get_or-set input i (decode_replace c) j 0))

pub get_or-map :
    (f : ℕ → ℕ) (xs : List ℕ) (j : ℕ) → j < length xs → get_or (map f xs) j 0 ≡ f (get_or xs j 0)
get_or-map f [] j h = absurd (omega arith)
get_or-map f (x ∷ xs) zero h = refl
get_or-map f (x ∷ xs) (suc j) h = get_or-map f xs j (omega arith)

-- A loop over a whole array of the right length maps its function over the text.
Puts-map :
    (f : ℕ → ℕ) (input out after : List ℕ)
    → length out ≡ length input
    → Puts f 0 (length input) input out after
    → after ≡ map f input
Puts-map f input out after e p =
    list_ext 0 after (map f input) (p.0 ∙ e ∙ sym (length-map f input)) (λ j h.
      let hj : j < length input = omega (arith, p.0) in
      ground (arith, p.1 j, get_or-map f input j hj))

abbrev pub AllBytes : List ℕ → Type 0
AllBytes [] = Unit
AllBytes (c ∷ cs) = (c < 256) × AllBytes cs

map-decoded-encoded :
    (text : List ℕ) → AllBytes text → map decoded (map (encoded false) text) ≡ map sanitized text
map-decoded-encoded [] a = refl
map-decoded-encoded (c ∷ cs) a = cc (decoded-encoded c a.0, map-decoded-encoded cs a.1)

pub decode_gsm_lem :
    (input out : List ℕ)
    → length out ≡ length input
    → (decode_gsm input (length input) false (some out) ≡ (input, some (map decoded input)))
      × (decode_gsm input (length input) true none ≡ (map decoded input, none))
      × (decode_gsm input (length input) false none ≡ (input, none))
unfolding decode_gsm
decode_gsm_lem input out e = (
  ap (λ r. (input, some r))
      (Puts-map decoded input out _ e (decode_loop-Puts (length input) 0 input out (omega arith))),
  ap (λ r. (r, none))
      (Puts-map decoded input input _ refl
        (decode_loop-Puts_input (length input) 0 input [] (omega arith))),
  refl,
)

encode_gsm_eq :
    (s : Bool) (text out : List ℕ)
    → 0 < length text
    → length out ≡ length text
    → encode_gsm s text false (some out) (length text)
      ≡ (length text, text, some (map (encoded s) text))
unfolding encode_gsm
encode_gsm_eq s text out h e =
    let f : (length text == 0) ≡ false = ground arith in
    rw f (
      ap (λ r. (length text, text, some r))
        (Puts-map (encoded s) text out _ e
          (encode_loop-Puts s (length text) 0 text out (omega arith))))

-- Where `char` is unsigned, decodeGSM gives back what encodeGSM was given, with a question mark
-- for each character that is not supported.
pub decode_gsm-encode_gsm :
    (text out : List ℕ)
    → AllBytes text
    → 0 < length text
    → length out ≡ length text
    → (code : List ℕ) × (encode_gsm false text false (some out) (length text)
        ≡ (length text, text, some code))
      × (decode_gsm code (length text) true none ≡ (map sanitized text, none))
decode_gsm-encode_gsm text out a h e =
    let code = map (encoded false) text in
    let len : length code ≡ length text = length-map (encoded false) text in
    (
      code,
      encode_gsm_eq false text out h e,
      rw len at ((decode_gsm_lem code code refl).1)
          ∙ ap (λ r. (r, none)) (map-decoded-encoded text a),
    )

-- The digits and the letters of the English alphabet.
abbrev pub IsAlnum : ℕ → Type 0
IsAlnum c = ((48 ≤ c) × (c ≤ 57)) ⊎ ((65 ≤ c) × (c ≤ 90)) ⊎ ((97 ≤ c) × (c ≤ 122))

encode_replace-IsAlnum : (c : ℕ) → IsAlnum c → encode_replace c ≡ 0xff
unfolding encode_replace
encode_replace-IsAlnum c (inl (h, k)) = ground arith
encode_replace-IsAlnum c (inr (inl (h, k))) = ground arith
encode_replace-IsAlnum c (inr (inr (h, k))) = ground arith

-- Where `char` is signed, encodeGSM writes 0xFF for each letter of the English alphabet and for each
-- digit, into every byte of the output that stands for one.
pub encode_gsm_signed :
    (text out : List ℕ)
    → 0 < length text
    → length out ≡ length text
    → (code : List ℕ) × (encode_gsm true text false (some out) (length text)
        ≡ (length text, text, some code))
      × ((j : ℕ) → j < length text → IsAlnum (get_or text j 0) → get_or code j 0 ≡ 0xff)
encode_gsm_signed text out h e = (
  map (encoded true) text,
  encode_gsm_eq true text out h e,
  λ j hj k.
      get_or-map (encoded true) text j hj ∙ rw (encode_replace-IsAlnum (get_or text j 0) k) refl,
)
