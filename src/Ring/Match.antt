-- ===== src/Ring/Match.antt =====
-- `compare` and `endsWith` decide whether a string stands at the front or the end of the list held.
use native.Mathlib.Decide.{dec_lt}
use a76xx.Prelude.{
  ℕ, zero, suc, ◌+◌, ◌-◌, ◌%◌, ◌^◌, ◌≤◌, ◌<◌, ◌≡◌, ◌↔◌, inl, inr, refl, sym, ap, ◌∙◌, none, some,
  true, false, List, [], ◌∷◌, ◌++◌, arith, length, min, get_or, take, drop, length-append,
  length-drop, get_or-append, get_or-drop, take-append-drop, list_ext, ltb, ◌==◌, ==_iff,
  if◌then◌else◌, Bool-cases,
}
use a76xx.Ring.{ByteRingBuf, CmpMatch, get_used, byte_at, same_from, compare, ends_from, ends_with}
use a76xx.Ring.Inv.{IsValid, get_used-lt-size}
use a76xx.Ring.Contents.{contents, length-contents, get_or-contents}

-- The loop of `compare` accepts exactly when no compared position differs.
same_from_sound :
    (r : ByteRingBuf) (str : List ℕ) (i n : ℕ)
    → same_from r str i n ≡ true
    → (j : ℕ) → j < n
    → get_or str (i + j) 0 ≡ byte_at r (i + j)
unfolding same_from
same_from_sound r str i zero h j hj = absurd (omega arith)
same_from_sound r str i (suc n) h zero hj =
    let e : i ≡ i + 0 = omega arith in
    rw (← e) (ground (arith, ==_iff (get_or str i 0) (byte_at r i)))
same_from_sound r str i (suc n) h (suc j) hj =
    let e : i + 1 + j ≡ i + suc j = omega arith in
    rw (← e) (same_from_sound r str (i + 1) n (ground arith) j (omega arith))

same_from_complete :
    (r : ByteRingBuf) (str : List ℕ) (i n : ℕ)
    → ((j : ℕ) → j < n → get_or str (i + j) 0 ≡ byte_at r (i + j))
    → same_from r str i n ≡ true
unfolding same_from
same_from_complete r str i zero h = refl
same_from_complete r str i (suc n) h =
    let here : get_or str i 0 ≡ byte_at r i =
      (let e : i + 0 ≡ i = omega arith in rw e at (h 0 (omega arith))) in
    ground (
      arith,
      ==_iff (get_or str i 0) (byte_at r i),
      same_from_complete r str (i + 1) n (λ j hj.
          let e : i + suc j ≡ i + 1 + j = omega arith in rw e at (h (suc j) (omega arith))),
    )

min_if : (a b : ℕ) → (if ltb a b then a else b) ≡ min a b
min_if a b = ground arith

-- The comparison of two lists from the front: `str` used up, `held` used up, or a difference.
pub front : List ℕ → List ℕ → CmpMatch
front [] held = CmpMatch.all_match
front (c ∷ cs) [] = CmpMatch.match_part
front (c ∷ cs) (b ∷ bs) = if c == b then front cs bs else CmpMatch.no_match

abbrev Agree : List ℕ → List ℕ → Type 0
Agree xs ys = (j : ℕ) → j < min (length xs) (length ys) → get_or xs j 0 ≡ get_or ys j 0

front-Agree :
    (xs ys : List ℕ)
    → Agree xs ys
    → front xs ys
      ≡ (if ltb (length ys) (length xs) then CmpMatch.match_part else CmpMatch.all_match)
unfolding front
front-Agree [] [] h = refl
front-Agree [] (y ∷ ys) h = ground arith
front-Agree (x ∷ xs) [] h = ground arith
front-Agree (x ∷ xs) (y ∷ ys) h =
    ground (arith, h 0 (omega arith), front-Agree xs ys (λ j hj. h (suc j) (omega arith)))

front-not-Agree : (xs ys : List ℕ) → ¬ (Agree xs ys) → front xs ys ≡ CmpMatch.no_match
unfolding front
front-not-Agree [] ys h = absurd (h (λ j hj. absurd (omega arith)))
front-not-Agree (x ∷ xs) [] h = absurd (h (λ j hj. absurd (omega arith)))
front-not-Agree (x ∷ xs) (y ∷ ys) h = elim (Bool-cases (x == y)) [
  | inl e ↦ rw e (front-not-Agree xs ys (λ a. h (extend a ((==_iff x y).0 e))))
  | inr e ↦ rw e
]
  where
    extend : Agree xs ys → x ≡ y → Agree (x ∷ xs) (y ∷ ys)
    extend a e zero hj = e
    extend a e (suc j) hj = a j (omega arith)

module _ {r : ByteRingBuf} (str : List ℕ) (v : IsValid r) where
  same_from-iff-Agree :
      (same_from r str 0 (min (length str) (get_used r)) ≡ true) ↔ Agree str (contents r)
  same_from-iff-Agree = (
    (λ h j hj.
        let hu : j < get_used r = omega (arith, length-contents r) in
        let s =
          same_from_sound r str 0 (min (length str) (get_used r)) h j
            (omega (arith, length-contents r)) in
        let e : 0 + j ≡ j = omega arith in (rw e at s) ∙ sym (get_or-contents r j hu)),
    (λ a. same_from_complete r str 0 (min (length str) (get_used r)) (λ j hj.
        let e : j ≡ 0 + j = omega arith in
        rw (← e) (a j (omega (arith, length-contents r)) ∙ get_or-contents r j (omega arith)))),
  )

  compare-some : compare r (some str) ≡ (
      if get_used r == 0
      then CmpMatch.no_match
      else if length str == 0
      then CmpMatch.no_match
      else front str (contents r))
  unfolding compare
  compare-some =
      let n = min (length str) (get_used r) in
      elim (Bool-cases (same_from r str 0 n)) [
        | inl same ↦ ground (
          arith,
          min_if (length str) (get_used r),
          same,
          front-Agree str (contents r) (same_from-iff-Agree.0 same),
          length-contents r,
        )
        | inr differ ↦ ground (
          arith,
          min_if (length str) (get_used r),
          differ,
          front-not-Agree str (contents r) (λ a. cc (same_from-iff-Agree.1 a, differ)),
        )
      ]

  -- `compare` finds no match for a null pointer, an empty string or an empty ring, and otherwise
  -- compares the string with the bytes held from the oldest on.
  pub compare_lem :
      (compare r none ≡ CmpMatch.no_match)
      × (compare r (some str) ≡ (
          if get_used r == 0
          then CmpMatch.no_match
          else if length str == 0
          then CmpMatch.no_match
          else front str (contents r)))
  unfolding compare
  compare_lem = (ground arith, compare-some)

-- The bytes held end in the string.
abbrev pub EndsIn : List ℕ → List ℕ → Type 0
EndsIn held str = (pre : List ℕ) × (held ≡ pre ++ str)

module _ {r : ByteRingBuf} (str : List ℕ) (v : IsValid r) (fits : length str ≤ get_used r) where
  -- One round compares a byte of the string with a byte held.
  ends_round :
      (i : ℕ)
      → i < length str
      → (get_or str (((length str + 2 ^ 32 - i) % 2 ^ 32 + 2 ^ 32 - 1) % 2 ^ 32) 0
          ≡ get_or str (length str - 1 - i) 0)
        × (get_or r.buf
              (((((r.tail + get_used r) % 2 ^ 32 + 2 ^ 32 - 1) % 2 ^ 32 + 2 ^ 32 - i) % 2 ^ 32)
                % r.size)
              0
            ≡ get_or (contents r) (get_used r - 1 - i) 0)
  ends_round i h =
      let small = get_used-lt-size v in
      let e : ((length str + 2 ^ 32 - i) % 2 ^ 32 + 2 ^ 32 - 1) % 2 ^ 32 ≡ length str - 1 - i =
        omega arith in
      let f : ((((r.tail + get_used r) % 2 ^ 32 + 2 ^ 32 - 1) % 2 ^ 32 + 2 ^ 32 - i) % 2 ^ 32)
          ≡ (r.tail + (get_used r - 1 - i)) % 2 ^ 32 =
        omega arith in
      (
        ap (λ k. get_or str k 0) e,
        ap (λ k. get_or r.buf (k % r.size) 0) f
            ∙ sym (get_or-contents r (get_used r - 1 - i) (omega arith)),
      )

  ends_from_sound :
      (i n : ℕ)
      → i + n ≤ length str
      → ends_from r str (get_used r) i n ≡ true
      → (j : ℕ) → i ≤ j
      → j < i + n
      → get_or str (length str - 1 - j) 0 ≡ get_or (contents r) (get_used r - 1 - j) 0
  unfolding ends_from
  ends_from_sound i zero b h j lo hi = absurd (omega arith)
  ends_from_sound i (suc n) b h j lo hi =
      let here = ends_round i (omega arith) in
      elim (dec_lt i j) [
        | yes p ↦
            ends_from_sound (i + 1) n (omega arith) (ground arith) j (omega arith) (omega arith)
        | no p ↦
            let e : i ≡ j = omega arith in rw (← e) (sym here.0 ∙ ground (arith, here) ∙ here.1)
      ]

  ends_from_complete :
      (i n : ℕ)
      → i + n ≤ length str
      → ((j : ℕ)
          → i ≤ j
          → j < i + n
          → get_or str (length str - 1 - j) 0 ≡ get_or (contents r) (get_used r - 1 - j) 0)
      → ends_from r str (get_used r) i n ≡ true
  unfolding ends_from
  ends_from_complete i zero b h = refl
  ends_from_complete i (suc n) b h =
      let here = ends_round i (omega arith) in
      ground (
        arith,
        here,
        h i (omega arith) (omega arith),
        ends_from_complete (i + 1) n (omega arith) (λ j lo hi. h j (omega arith) (omega arith)),
      )

  -- The string stands behind the bytes that are before it.
  ends_split :
      ends_from r str (get_used r) 0 (length str) ≡ true
      → drop (get_used r - length str) (contents r) ≡ str
  ends_split h =
      list_ext 0 _ _
        (omega (arith, length-drop (get_used r - length str) (contents r), length-contents r))
        (λ i hi.
          let hs : i < length str =
            omega (arith, length-drop (get_used r - length str) (contents r), length-contents r) in
          let k = length str - 1 - i in
          let s = ends_from_sound 0 (length str) (omega arith) h k (omega arith) (omega arith) in
          let e : length str - 1 - k ≡ i = omega arith in
          let f : get_used r - 1 - k ≡ get_used r - length str + i = omega arith in
          get_or-drop (get_used r - length str) (contents r) i 0 ∙ sym (rw (e, f) at s))

  ends_joined : EndsIn (contents r) str → ends_from r str (get_used r) 0 (length str) ≡ true
  ends_joined (pre, e) = ends_from_complete 0 (length str) (omega arith) (λ j lo hi.
      let len : length pre + length str ≡ get_used r =
        omega (arith, length-append pre str, length-contents r, ap (λ (l : List ℕ). length l) e) in
      let f : get_used r - 1 - j - length pre ≡ length str - 1 - j = omega arith in
      rw e
        (ground (arith, get_or-append pre str (get_used r - 1 - j) 0, ap (λ k. get_or str k 0) f)))

-- `endsWith` tells whether the bytes held end in a string, which must not be empty.
pub ends_with_lem :
    {r : ByteRingBuf} (str : List ℕ)
    → IsValid r
    → (ends_with r (some str) ≡ true) ↔ ((0 < length str) × EndsIn (contents r) str)
unfolding ends_with
ends_with_lem {r} str v = (
  (λ h. (
    ground arith,
    (
      take (get_used r - length str) (contents r),
      sym (
          ap (λ (t : List ℕ). take (get_used r - length str) (contents r) ++ t)
            (sym (ends_split str v (ground arith) (ground arith)))
          ∙ take-append-drop (get_used r - length str) (contents r)),
    ),
  )),
  (λ p.
      let fits : length str ≤ get_used r =
        omega (
          arith,
          length-append p.1.0 str,
          length-contents r,
          ap (λ (l : List ℕ). length l) p.1.1,
        ) in
      let all = ends_joined str v fits p.1 in let pos = p.0 in ground arith),
)

-- A null pointer ends nothing.
pub ends_with-none : (r : ByteRingBuf) → ends_with r none ≡ false
unfolding ends_with
ends_with-none r = refl
