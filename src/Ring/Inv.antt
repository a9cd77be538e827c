-- ===== src/Ring/Inv.antt =====
-- The representation invariant of `ByteRingBuf`, and that every operation keeps it.
use a76xx.Prelude.{
  ℕ, ◌+◌, ◌-◌, ◌%◌, ◌^◌, ◌≤◌, ◌<◌, ◌≡◌, ◌⊎◌, inl, inr, refl, ap, ◌∙◌, List, arith, length,
  length-copy_at, replicate, take, drop, copy_at, ltb, Bool-cases, Option-cases,
}
use a76xx.Ring.{
  ByteRingBuf, init, get_free, get_used, write_len, written_buf, write, read, clear, consume, peek,
  pop,
}

-- The buffer has `_size` bytes, both indices lie in it, and no sum of two of them wraps.
pub record IsValid (r : ByteRingBuf) : Type 0 where
  pub storage : length r.buf ≡ r.size
  pub nonempty : 0 < r.size
  pub small : r.size ≤ 2 ^ 31
  pub head_in : r.head < r.size
  pub tail_in : r.tail < r.size

length-replicate : (n a : ℕ) → length (replicate n a) ≡ n
length-replicate ℕ.zero a = refl
length-replicate (ℕ.suc n) a = ap ℕ.suc (length-replicate n a)

pub init-IsValid : (n : ℕ) → 0 < n → n ≤ 2 ^ 31 → IsValid (init n)
unfolding init
init-IsValid n h k = omega (arith, length-replicate n 0)

-- Free and used bytes make up the size less one, the slot that tells a full ring from an empty one.
pub get_free-add-get_used : {r : ByteRingBuf} → IsValid r → get_free r + get_used r + 1 ≡ r.size
unfolding get_free get_used
get_free-add-get_used v = ground arith

pub get_used_lem :
    {r : ByteRingBuf}
    → IsValid r
    → ((r.head < r.tail) × (get_used r ≡ r.size - r.tail + r.head))
      ⊎ ((r.tail ≤ r.head) × (get_used r ≡ r.head - r.tail))
unfolding get_used
get_used_lem v = ground arith

pub get_used-lt-size : {r : ByteRingBuf} → IsValid r → get_used r < r.size
get_used-lt-size v = omega (arith, get_used_lem v)

pub length-written_buf :
    (r : ByteRingBuf) (source : List ℕ) (n : ℕ) → length (written_buf r source n) ≡ length r.buf
length-written_buf r source n =
    let room = (r.size + 2 ^ 32 - r.head) % 2 ^ 32 in
    elim (Bool-cases (ltb room n)) [
      | inl e ↦ rw e (
          length-copy_at (copy_at r.buf r.head (take room source)) 0
            (take ((n + 2 ^ 32 - room) % 2 ^ 32) (drop room source))
          ∙ length-copy_at r.buf r.head (take room source))
      | inr e ↦ rw e (length-copy_at r.buf r.head (take n source))
    ]

-- Writing to a well-formed ring leaves a well-formed ring, whatever is written and however much.
pub write-IsValid :
    {r : ByteRingBuf} (source : List ℕ) (len : ℕ) → IsValid r → IsValid (write r source len).1
unfolding write
write-IsValid {r} source len v =
    let n = write_len r len in
    record {
      storage = length-written_buf r source n ∙ v.storage;
      nonempty = v.nonempty;
      small = v.small;
      head_in = let h = v.nonempty in omega arith;
      tail_in = ground arith;
    }

pub read-IsValid : {r : ByteRingBuf} (max_len : ℕ) → IsValid r → IsValid (read r max_len).2
unfolding read
read-IsValid max_len v = ground arith

pub clear-IsValid : {r : ByteRingBuf} → IsValid r → IsValid (clear r)
unfolding clear
clear-IsValid v = omega arith

pub consume-IsValid : {r : ByteRingBuf} (n : ℕ) → IsValid r → IsValid (consume r n).1
unfolding consume
consume-IsValid n v = ground arith

pub pop-IsValid : {r : ByteRingBuf} → IsValid r → IsValid (pop r).1
unfolding pop
pop-IsValid {r} v = elim (Option-cases (peek r)) [
  | inl e ↦ ground arith
  | inr (x, e) ↦ ground arith
]

-- No operation changes the size.
pub size-init : (n : ℕ) → (init n).size ≡ n
unfolding init
size-init n = refl

pub size-write :
    (r : ByteRingBuf) (source : List ℕ) (len : ℕ) → (write r source len).1.size ≡ r.size
unfolding write
size-write r source len = refl

pub size-read : (r : ByteRingBuf) (max_len : ℕ) → (read r max_len).2.size ≡ r.size
unfolding read
size-read r max_len = refl

pub size-clear : (r : ByteRingBuf) → (clear r).size ≡ r.size
unfolding clear
size-clear r = refl

pub size-pop : (r : ByteRingBuf) → (pop r).1.size ≡ r.size
unfolding pop
size-pop r = elim (Option-cases (peek r)) [ inl e ↦ ground arith | inr (x, e) ↦ ground arith ]
