-- ===== src/Ring/Write.antt =====
-- `ByteRingBuf::write` against the list of bytes held.
use native.Mathlib.Decide.{dec_lt}
use a76xx.Prelude.{
  lt→ltb, false, sym, ℕ, ◌+◌, ◌-◌, ◌%◌, ◌^◌, ◌≤◌, ◌<◌, ◌≡◌, ◌⊎◌, refl, ap, ◌∙◌, List, ◌++◌, arith,
  length, min, get_or, take, drop, length-append, length-take, length-drop, get_or-append,
  get_or-take, get_or-drop, copy_at, get_or-copy_at, length-copy_at, list_ext, ltb, if◌then◌else◌,
}
use a76xx.Ring.{ByteRingBuf, get_used, get_free, byte_at, write_len, written_buf, write}
use a76xx.Ring.Inv.{IsValid, get_used_lem, get_free-add-get_used, get_used-lt-size, write-IsValid}
use a76xx.Ring.Contents.{contents, length-contents, get_or-contents, mod_cases, byte_at_cases}

-- The bytes up to the end of the buffer.
abbrev room : ByteRingBuf → ℕ
room r = r.size - r.head

-- `written_buf` without the wrap of `size_t`.
module _ {r : ByteRingBuf} (source : List ℕ) (n : ℕ) (v : IsValid r) (hn : n < r.size) where
  written_buf_wrapped :
      room r < n
      → written_buf r source n
        ≡ copy_at
            (copy_at r.buf r.head (take (room r) source))
            0
            (take (n - room r) (drop (room r) source))
  written_buf_wrapped h =
      let e : (r.size + 2 ^ 32 - r.head) % 2 ^ 32 ≡ room r = omega arith in
      let d : (n + 2 ^ 32 - room r) % 2 ^ 32 ≡ n - room r = omega arith in
      rw (e, lt→ltb (room r) n h, d)

  written_buf_plain : n ≤ room r → written_buf r source n ≡ copy_at r.buf r.head (take n source)
  written_buf_plain h =
      let e : (r.size + 2 ^ 32 - r.head) % 2 ^ 32 ≡ room r = omega arith in
      let f : ltb (room r) n ≡ false = ground arith in rw (e, f)

-- What stands at index `j` after the copy of `n` bytes from `_head` on: the byte of `source`, if
-- the copy came by there, directly or after going round.
pub get_or-written_buf :
    {r : ByteRingBuf} (source : List ℕ) (n j : ℕ)
    → IsValid r
    → n < r.size
    → n ≤ length source
    → j < r.size
    → get_or (written_buf r source n) j 0 ≡ (
        if ltb j (r.head + n - r.size)
        then get_or source (j + r.size - r.head) 0
        else if ltb j r.head
        then get_or r.buf j 0
        else if ltb j (r.head + n)
        then get_or source (j - r.head) 0
        else get_or r.buf j 0)
get_or-written_buf {r} source n j v hn hs hj = elim (dec_lt (r.size - r.head) n) [
  | yes h ↦
      let room = r.size - r.head in
      let once = copy_at r.buf r.head (take room source) in
      rw (written_buf_wrapped source n v hn h) (
        ground (
          arith,
          get_or-copy_at once 0 (take (n - room) (drop room source)) j 0,
          length-copy_at r.buf r.head (take room source),
          get_or-copy_at r.buf r.head (take room source) j 0,
          length-take (n - room) (drop room source),
          length-drop room source,
          length-take room source,
          get_or-take (n - room) (drop room source) j 0,
          get_or-drop room source j 0,
          get_or-take room source (j - r.head) 0,
          ap (λ k. get_or source k 0) (back j),
        ))
  | no h ↦ rw (written_buf_plain source n v hn (omega arith)) (
      ground (
        arith,
        get_or-copy_at r.buf r.head (take n source) j 0,
        length-take n source,
        get_or-take n source (j - r.head) 0,
      ))
]
  where
    back : (j : ℕ) → r.size - r.head + j ≡ j + r.size - r.head
    back j = omega arith

write_len-eq-min : {r : ByteRingBuf} (len : ℕ) → IsValid r → write_len r len ≡ min len (r.size - 1)
write_len-eq-min {r} len v = ground arith

module _ {r : ByteRingBuf} (source : List ℕ) (len : ℕ) (v : IsValid r) where
  -- The number of bytes taken, and the ring that they leave.
  abbrev n : ℕ
  n = min len (r.size - 1)

  abbrev after : ByteRingBuf
  after = (write r source len).1

  size-write : after.size ≡ r.size
  unfolding write
  size-write = refl

  buf-write : after.buf ≡ written_buf r source n
  unfolding write
  buf-write = ap (written_buf r source) (write_len-eq-min len v)

  head-write :
      ((r.head + n < r.size) × (after.head ≡ r.head + n))
      ⊎ ((r.size ≤ r.head + n) × (after.head ≡ r.head + n - r.size))
  unfolding write
  head-write =
      let e : (r.head + n) % 2 ^ 32 ≡ r.head + n = omega arith in
      ground (arith, write_len-eq-min len v, e, mod_cases (r.head + n) r.size (omega arith))

  tail_of_write :
      after.tail ≡ (if ltb (get_free r) n then (after.head + 1) % 2 ^ 32 % r.size else r.tail)
  unfolding write
  tail_of_write = rw (← write_len-eq-min len v)

  tail-write :
      ((get_used r + n < r.size) × (after.tail ≡ r.tail))
      ⊎ ((r.size ≤ get_used r + n) × (after.head + 1 < r.size) × (after.tail ≡ after.head + 1))
      ⊎ ((r.size ≤ get_used r + n) × (after.head + 1 ≡ r.size) × (after.tail ≡ 0))
  unfolding write
  tail-write =
      let bound = (write-IsValid source len v).head_in in
      let e : (after.head + 1) % 2 ^ 32 ≡ after.head + 1 = omega arith in
      ground (
        arith,
        tail_of_write,
        get_free-add-get_used v,
        e,
        mod_cases (after.head + 1) r.size (omega arith),
      )

-- After a write the ring holds all bytes, or as many as it can.
pub get_used-write :
    {r : ByteRingBuf} (source : List ℕ) (len : ℕ)
    → IsValid r
    → get_used (write r source len).1 ≡ min (get_used r + min len (r.size - 1)) (r.size - 1)
get_used-write {r} source len v = ground (
  arith,
  size-write source len v,
  head-write source len v,
  tail-write source len v,
  get_used_lem v,
  get_used_lem (write-IsValid source len v),
)

-- An index after it went round the end of the buffer at most once.
abbrev round : ℕ → ℕ → ℕ
round size x = if ltb x size then x else x - size

byte_at-round :
    {r : ByteRingBuf} (i : ℕ)
    → IsValid r
    → i < r.size
    → byte_at r i ≡ get_or r.buf (round r.size (r.tail + i)) 0
byte_at-round i v h = ground (arith, byte_at_cases i v)

module _ {r : ByteRingBuf} (source : List ℕ) (n d : ℕ) (v : IsValid r) (hn : n < r.size) where
  -- The copy does not come by a byte that is kept.
  kept_apart :
      d < get_used r
      → get_used r + n < r.size + d
      → let p = round r.size (r.tail + d) in
        (p < r.size) × (r.head + n ≤ p + r.size) × ((p < r.head) ⊎ (r.head + n ≤ p))
  kept_apart old kept = ground (arith, get_used_lem v)

  kept_byte :
      n ≤ length source
      → d < get_used r
      → get_used r + n < r.size + d
      → get_or (written_buf r source n) (round r.size (r.tail + d)) 0 ≡ byte_at r d
  kept_byte hs old kept =
      let p = round r.size (r.tail + d) in
      let apart = kept_apart old kept in
      get_or-written_buf source n p v hn hs apart.0
      ∙ outside p apart.1 apart.2
      ∙ sym (byte_at-round d v (omega (arith, get_used-lt-size v)))
    where
      outside :
          (p : ℕ)
          → r.head + n ≤ p + r.size
          → (p < r.head) ⊎ (r.head + n ≤ p)
          → (if ltb p (r.head + n - r.size)
              then get_or source (p + r.size - r.head) 0
              else if ltb p r.head
              then get_or r.buf p 0
              else if ltb p (r.head + n)
              then get_or source (p - r.head) 0
              else get_or r.buf p 0)
            ≡ get_or r.buf p 0
      outside p h k = ground arith

  copied_byte :
      n ≤ length source
      → d < n
      → get_or (written_buf r source n) (round r.size (r.head + d)) 0 ≡ get_or source d 0
  copied_byte hs hd = elim (dec_lt (r.head + d) r.size) [
    | yes h ↦ rw (lt→ltb _ _ h) (
        get_or-written_buf source n (r.head + d) v hn hs h
        ∙ ground (arith, same (r.head + d - r.head)))
    | no h ↦
        let e : ltb (r.head + d) r.size ≡ false = ground arith in
        rw e (
          get_or-written_buf source n (r.head + d - r.size) v hn hs (omega arith)
          ∙ ground (arith, same (r.head + d - r.size + r.size - r.head)))
  ]
    where
      same : (x : ℕ) → x ≡ d → get_or source x 0 ≡ get_or source d 0
      same x e = ap (λ k. get_or source k 0) e

-- Where the byte at a position after a write stands in the buffer, in the indices before it: `d`
-- counts from the old tail, and from the old head where the position is past the old bytes.
module _ {r : ByteRingBuf} (source : List ℕ) (len : ℕ) (v : IsValid r) (h : len ≤ length source)
    (i : ℕ) (hi : i < get_used (write r source len).1) where
  abbrev d : ℕ
  d = get_used r + min len (r.size - 1) - (r.size - 1) + i

  abbrev place : ℕ
  place = round r.size ((write r source len).1.tail + i)

  place-eq :
      (place < r.size)
      × (place ≡ (
          if ltb d (get_used r)
          then round r.size (r.tail + d)
          else round r.size (r.head + (d - get_used r))))
  place-eq = ground (
    arith,
    size-write source len v,
    head-write source len v,
    tail-write source len v,
    get_used-write source len v,
    get_used_lem v,
  )

  byte-place :
      byte_at (write r source len).1 i
      ≡ get_or (written_buf r source (min len (r.size - 1))) place 0
  byte-place = ground (
    arith,
    byte_at_cases i (write-IsValid source len v),
    buf-write source len v,
    size-write source len v,
    get_used-lt-size (write-IsValid source len v),
  )

  -- What a position holds after the write: an old byte that is kept, or a new one.
  byte-write :
      byte_at (write r source len).1 i
      ≡ (if ltb d (get_used r) then byte_at r d else get_or source (d - get_used r) 0)
  byte-write = elim (dec_lt d (get_used r)) [
    | yes old ↦
        byte-place
        ∙ ground (
          arith,
          place-eq,
          kept_byte source (min len (r.size - 1)) d v (omega arith) (omega arith) old (omega arith),
        )
    | no new ↦
        byte-place
        ∙ ground (
          arith,
          place-eq,
          copied_byte source (min len (r.size - 1)) (d - get_used r) v (omega arith) (omega arith)
              (omega (arith, get_used-write source len v)),
        )
  ]

-- A write appends the bytes that it takes, `min len (size - 1)` from the front of `source`, and
-- drops the oldest bytes that no longer fit.
pub contents-write :
    {r : ByteRingBuf} (source : List ℕ) (len : ℕ)
    → IsValid r
    → len ≤ length source
    → contents (write r source len).1
      ≡ drop
          (get_used r + min len (r.size - 1) - (r.size - 1))
          (contents r ++ take (min len (r.size - 1)) source)
contents-write {r} source len v h = list_ext 0 _ _ same_length same_bytes
  where
    n : ℕ
    n = min len (r.size - 1)

    k : ℕ
    k = get_used r + n - (r.size - 1)

    same_length :
        length (contents (write r source len).1) ≡ length (drop k (contents r ++ take n source))
    same_length = omega (
      arith,
      length-contents (write r source len).1,
      get_used-write source len v,
      length-drop k (contents r ++ take n source),
      length-append (contents r) (take n source),
      length-contents r,
      length-take n source,
      get_used-lt-size v,
    )

    same_bytes :
        (i : ℕ)
        → i < length (contents (write r source len).1)
        → get_or (contents (write r source len).1) i 0
          ≡ get_or (drop k (contents r ++ take n source)) i 0
    same_bytes i hi =
        let r' = (write r source len).1 in
        let hu : i < get_used r' = omega (arith, length-contents r') in
        let hk : i + k < get_used r + n = omega (arith, get_used-write source len v) in
        get_or-contents r' i hu
        ∙ byte-write source len v h i hu
        ∙ elim (dec_lt (k + i) (get_used r)) [
          | yes old ↦ ground (
            arith,
            get_or-drop k (contents r ++ take n source) i 0,
            get_or-append (contents r) (take n source) (k + i) 0,
            length-contents r,
            get_or-contents r (k + i),
          )
          | no new ↦ ground (
            arith,
            get_or-drop k (contents r ++ take n source) i 0,
            get_or-append (contents r) (take n source) (k + i) 0,
            length-contents r,
            get_or-take n source (k + i - get_used r) 0,
          )
        ]
