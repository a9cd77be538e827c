-- ===== src/Ring/Read.antt =====
-- `read`, `consume`, `peek` and `pop` take bytes from the front of the list held.
use native.Mathlib.Decide.{dec_lt}
use a76xx.Prelude.{
  ℕ, ◌+◌, ◌-◌, ◌%◌, ◌^◌, ◌≤◌, ◌<◌, ◌≡◌, ◌⊎◌, refl, sym, ap, ◌∙◌, Option, none, some, List, [], ◌∷◌,
  ◌++◌, arith, length, min, get_or, take, drop, length-append, length-take, length-drop,
  get_or-append, get_or-take, get_or-drop, list_ext, ltb, lt→ltb, false, if◌then◌else◌,
}
use a76xx.Ring.{ByteRingBuf, get_used, byte_at, read, consume, peek, pop}
use a76xx.Ring.Inv.{IsValid, get_used_lem, get_used-lt-size}
use a76xx.Ring.Contents.{contents, length-contents, get_or-contents, mod_cases, byte_at_cases}

-- The ring after `k` bytes have been taken.
abbrev advance : ByteRingBuf → ℕ → ByteRingBuf
advance r k = record r { tail = (r.tail + k) % 2 ^ 32 % r.size }

module _ {r : ByteRingBuf} (k : ℕ) (v : IsValid r) (hk : k ≤ get_used r) where
  advance-cases :
      ((r.tail + k < r.size) × ((r.tail + k) % 2 ^ 32 % r.size ≡ r.tail + k))
      ⊎ ((r.size ≤ r.tail + k) × ((r.tail + k) % 2 ^ 32 % r.size ≡ r.tail + k - r.size))
  advance-cases =
      let small = get_used-lt-size v in
      let e : (r.tail + k) % 2 ^ 32 ≡ r.tail + k = omega arith in
      rw e (mod_cases (r.tail + k) r.size (omega arith))

  advance-IsValid : IsValid (advance r k)
  advance-IsValid = ground (arith, v.nonempty)

  get_used-advance : get_used (advance r k) ≡ get_used r - k
  get_used-advance = ground (arith, advance-cases, get_used_lem v, get_used_lem advance-IsValid)

  byte-advance : (i : ℕ) → i + k < get_used r → byte_at (advance r k) i ≡ byte_at r (k + i)
  byte-advance i h =
      let small = get_used-lt-size v in
      ground (arith, advance-cases, byte_at_cases i advance-IsValid, byte_at_cases (k + i) v)

  contents-advance : contents (advance r k) ≡ drop k (contents r)
  contents-advance =
      list_ext 0 _ _
        (omega (
          arith,
          length-contents (advance r k),
          get_used-advance,
          length-drop k (contents r),
          length-contents r,
        ))
        (λ i h.
          let hi : i < get_used (advance r k) = omega (arith, length-contents (advance r k)) in
          let hik : i + k < get_used r = omega (arith, get_used-advance) in
          get_or-contents (advance r k) i hi
          ∙ byte-advance i hik
          ∙ sym (get_or-drop k (contents r) i 0 ∙ get_or-contents r (k + i) (omega arith)))

-- The bytes copied out by one or two `memcpy` from the tail.
module _ {r : ByteRingBuf} (k : ℕ) (v : IsValid r) (hk : k ≤ get_used r) where
  plain_bytes : k ≤ r.size - r.tail → take k (drop r.tail r.buf) ≡ take k (contents r)
  plain_bytes h =
      list_ext 0 _ _
        (omega (
          arith,
          length-take k (drop r.tail r.buf),
          length-drop r.tail r.buf,
          length-take k (contents r),
          length-contents r,
        ))
        (λ i hi.
          let small = get_used-lt-size v in
          let hik : i < k = omega (arith, length-take k (drop r.tail r.buf)) in
          get_or-take k (drop r.tail r.buf) i 0 hik
          ∙ get_or-drop r.tail r.buf i 0
          ∙ sym (
              get_or-take k (contents r) i 0 hik
              ∙ get_or-contents r i (omega arith)
              ∙ ground (arith, byte_at_cases i v)))

  split_bytes :
      r.size - r.tail < k
      → take (r.size - r.tail) (drop r.tail r.buf) ++ take (k - (r.size - r.tail)) r.buf
        ≡ take k (contents r)
  split_bytes h =
      let room = r.size - r.tail in
      let first = take room (drop r.tail r.buf) in
      let second = take (k - room) r.buf in
      let small = get_used-lt-size v in
      let len_first : length first ≡ room =
        omega (arith, length-take room (drop r.tail r.buf), length-drop r.tail r.buf) in
      let len_second : length second ≡ k - room = omega (arith, length-take (k - room) r.buf) in
      list_ext 0 _ _
        (omega (
          arith,
          length-append first second,
          len_first,
          len_second,
          length-take k (contents r),
          length-contents r,
        ))
        (λ i hi.
          let hik : i < k = omega (arith, length-append first second, len_first, len_second) in
          ground (
            arith,
            get_or-append first second i 0,
            len_first,
            get_or-take room (drop r.tail r.buf) i 0,
            get_or-drop r.tail r.buf i 0,
            get_or-take (k - room) r.buf (i - room) 0,
            get_or-take k (contents r) i 0 hik,
            get_or-contents r i (omega arith),
            byte_at_cases i v (omega arith),
            ap (λ j. get_or r.buf j 0) (around i),
          ))
    where
      around : (i : ℕ) → r.tail + i - r.size ≡ i - (r.size - r.tail)
      around i = let t = v.tail_in in omega arith

min_if : (a b : ℕ) → (if ltb a b then a else b) ≡ min a b
min_if a b = ground arith

-- `read` returns as many bytes as asked for or held, the oldest ones in order, and leaves the rest.
pub read_lem :
    {r : ByteRingBuf} (max_len : ℕ)
    → IsValid r
    → let k = min max_len (get_used r) in
      ((read r max_len).0 ≡ k)
      × ((read r max_len).1 ≡ take k (contents r))
      × (contents (read r max_len).2 ≡ drop k (contents r))
unfolding read
read_lem {r} max_len v =
    let used = get_used r in
    let k = min max_len used in
    let room = r.size - r.tail in
    let small = get_used-lt-size v in
    let e : (r.size + 2 ^ 32 - r.tail) % 2 ^ 32 ≡ room = omega arith in
    let rest = contents-advance k v (omega arith) in
    rw (min_if max_len used, e)
      (elim (dec_lt room k) [
        | yes h ↦
            let d : (k + 2 ^ 32 - room) % 2 ^ 32 ≡ k - room = omega arith in
            rw (lt→ltb room k h, d) (refl, split_bytes k v (omega arith) h, rest)
        | no h ↦
            let f : ltb room k ≡ false = ground arith in
            rw f (refl, plain_bytes k v (omega arith) (omega arith), rest)
      ])

-- `consume` drops as many bytes as asked for or held, and returns their number.
pub consume_lem :
    {r : ByteRingBuf} (n : ℕ)
    → IsValid r
    → ((consume r n).0 ≡ min n (get_used r))
      × (contents (consume r n).1 ≡ drop (min n (get_used r)) (contents r))
unfolding consume
consume_lem {r} n v =
    rw (min_if n (get_used r)) (refl, contents-advance (min n (get_used r)) v (omega arith))

-- The oldest byte of a list, and the rest.
abbrev pub uncons : List ℕ → Option ℕ × List ℕ
uncons [] = (none, [])
uncons (x ∷ xs) = (some x, xs)

nil_of_length : (xs : List ℕ) → length xs ≡ 0 → xs ≡ []
nil_of_length [] e = refl
nil_of_length (x ∷ xs) e = absurd (omega arith)

uncons_of_length : (xs : List ℕ) → 0 < length xs → uncons xs ≡ (some (get_or xs 0 0), drop 1 xs)
uncons_of_length [] h = absurd (omega arith)
uncons_of_length (x ∷ xs) h = refl

-- `peek` and `pop` test whether a byte is held.
taken_byte :
    (r : ByteRingBuf)
    → 0 < get_used r
    → (peek r ≡ some (get_or r.buf r.tail 0))
      × (pop r ≡ (some (get_or r.buf r.tail 0), advance r 1))
unfolding pop peek
taken_byte r h = ground arith

no_byte : (r : ByteRingBuf) → get_used r ≡ 0 → (peek r ≡ none) × (pop r ≡ (none, r))
unfolding pop peek
no_byte r h = ground arith

-- `peek` shows the oldest byte held and `pop` takes it; on an empty ring both fail, and `pop`
-- changes nothing.
pub peek_pop_lem :
    {r : ByteRingBuf}
    → IsValid r
    → (peek r ≡ (uncons (contents r)).0)
      × ((pop r).0 ≡ (uncons (contents r)).0)
      × (contents (pop r).1 ≡ (uncons (contents r)).1)
      × (get_used r ≡ 0 → (pop r).1 ≡ r)
peek_pop_lem {r} v = elim (dec_lt 0 (get_used r)) [
  | yes h ↦
      let small = get_used-lt-size v in
      let first : get_or r.buf r.tail 0 ≡ get_or (contents r) 0 0 =
        sym (get_or-contents r 0 h ∙ ground (arith, byte_at_cases 0 v)) in
      let u = uncons_of_length (contents r) (omega (arith, length-contents r)) in
      let t = taken_byte r h in
      rw (u, t.0, t.1)
        (
          ap (λ x. some x) first,
          ap (λ x. some x) first,
          contents-advance 1 v h,
          λ e. absurd (omega arith),
        )
  | no h ↦
      let zero_used : get_used r ≡ 0 = omega arith in
      let empty : contents r ≡ [] = nil_of_length (contents r) (omega (arith, length-contents r)) in
      let t = no_byte r zero_used in rw (t.0, t.1, empty) (refl, refl, refl, λ e. refl)
]
