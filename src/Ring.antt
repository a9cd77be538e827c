-- ===== src/Ring.antt =====
-- src/utils/byteringbuf.h and byteringbuf.cpp: the byte ring in which the ESP transport keeps what
-- it has read from the UART. The functions are shut; the modules below prove what they do.
pub mod Inv
pub mod Contents
pub mod Write
pub mod Read
pub mod Match
mod Tests
use a76xx.Prelude.{
  ℕ, zero, suc, ◌+◌, ◌-◌, ◌%◌, ◌^◌, Bool, true, false, not, Option, none, some, List, ◌++◌, ltb,
  ◌==◌, if◌then◌else◌, length, get_or, take, drop, copy_at, replicate,
}

-- `_buf` holds `_size` bytes; `_head` is where the next byte goes, `_tail` the oldest byte.
pub record ByteRingBuf : Type 0 where
  pub buf : List ℕ
  pub size : ℕ
  pub head : ℕ
  pub tail : ℕ

pub data CmpMatch : Type 0 where
  no_match match_part all_match : CmpMatch

-- `size_t` has 32 bits on the microcontroller; its differences wrap.
abbrev pub size_mod : ℕ
size_mod = 2 ^ 32

abbrev pub add_size : ℕ → ℕ → ℕ
add_size a b = (a + b) % size_mod

abbrev pub sub_size : ℕ → ℕ → ℕ
sub_size a b = (a + size_mod - b) % size_mod

-- `new unsigned char[sizeBytes]` does not set the bytes; the model starts from zeroes, which no
-- theorem reads.
unfoldable pub init : ℕ → ByteRingBuf
init size_bytes = record { buf = replicate size_bytes 0; size = size_bytes; head = 0; tail = 0 }

unfoldable pub get_free : ByteRingBuf → ℕ
get_free r =
    if ltb r.head r.tail
    then sub_size (sub_size r.tail r.head) 1
    else sub_size (add_size (sub_size r.size r.head) r.tail) 1

unfoldable pub get_used : ByteRingBuf → ℕ
get_used r =
    if ltb r.head r.tail then add_size (sub_size r.size r.tail) r.head else sub_size r.head r.tail

-- How much `write` takes of `len` bytes.
abbrev pub write_len : ByteRingBuf → ℕ → ℕ
write_len r len = if ltb len (sub_size r.size 1) then len else sub_size r.size 1

-- The buffer after the one or two `memcpy` of `write`.
abbrev pub written_buf : ByteRingBuf → List ℕ → ℕ → List ℕ
written_buf r source n =
    let room = sub_size r.size r.head in
    let wrap_around = ltb room n in
    let copy_len = if wrap_around then room else n in
    let buf = copy_at r.buf r.head (take copy_len source) in
    if wrap_around then copy_at buf 0 (take (sub_size n copy_len) (drop copy_len source)) else buf

-- `len` bytes are read from `source`. The result is the number of bytes taken.
unfoldable pub write : ByteRingBuf → List ℕ → ℕ → ℕ × ByteRingBuf
write r source len =
    let n = write_len r len in
    let overwrite = ltb (get_free r) n in
    let head = add_size r.head n % r.size in
    (
      n,
      record r {
        buf = written_buf r source n;
        head = head;
        tail = if overwrite then add_size head 1 % r.size else r.tail;
      },
    )

-- The number of bytes, the bytes that went to `dest`, and the ring.
unfoldable pub read : ByteRingBuf → ℕ → ℕ × List ℕ × ByteRingBuf
read r max_len =
    let used = get_used r in
    let read_len = if ltb max_len used then max_len else used in
    let room = sub_size r.size r.tail in
    let wrap_around = ltb room read_len in
    let copy_len = if wrap_around then room else read_len in
    let first = take copy_len (drop r.tail r.buf) in
    let second = take (sub_size read_len copy_len) r.buf in
    (
      read_len,
      (if wrap_around then first ++ second else first),
      record r { tail = add_size r.tail read_len % r.size },
    )

unfoldable pub clear : ByteRingBuf → ByteRingBuf
clear r = record r { head = 0; tail = 0 }

-- `_buf[(_tail + i) % _size]`
abbrev pub byte_at : ByteRingBuf → ℕ → ℕ
byte_at r i = get_or r.buf (add_size r.tail i % r.size) 0

-- The loop of `compare` from index `i`: no byte of the `n` compared differs.
pub same_from : ByteRingBuf → List ℕ → ℕ → ℕ → Bool
same_from r str i zero = true
same_from r str i (suc n) =
    let rest = same_from r str (i + 1) n in
    if not (get_or str i 0 == byte_at r i) then false else rest

-- A null pointer is `none`.
pub compare : ByteRingBuf → Option (List ℕ) → CmpMatch
compare r none = CmpMatch.no_match
compare r (some str) =
    let avail_len = get_used r in
    let str_len = length str in
    let cmp_len = if ltb str_len avail_len then str_len else avail_len in
    if avail_len == 0
    then CmpMatch.no_match
    else if str_len == 0
    then CmpMatch.no_match
    else if not (same_from r str 0 cmp_len)
    then CmpMatch.no_match
    else if not (str_len == cmp_len)
    then CmpMatch.match_part
    else CmpMatch.all_match

pub consume : ByteRingBuf → ℕ → ℕ × ByteRingBuf
consume r n =
    let avail_len = get_used r in
    let consume_len = if ltb n avail_len then n else avail_len in
    (consume_len, record r { tail = add_size r.tail consume_len % r.size })

-- The loop of `endsWith` from round `i`: it compares from the last byte backwards.
unfoldable pub ends_from : ByteRingBuf → List ℕ → ℕ → ℕ → ℕ → Bool
ends_from r str avail_len i zero = true
ends_from r str avail_len i (suc n) =
    let rest = ends_from r str avail_len (i + 1) n in
    let theirs = get_or str (sub_size (sub_size (length str) i) 1) 0 in
    let ours = get_or r.buf (sub_size (sub_size (add_size r.tail avail_len) 1) i % r.size) 0 in
    if not (theirs == ours) then false else rest

unfoldable pub ends_with : ByteRingBuf → Option (List ℕ) → Bool
ends_with r none = false
ends_with r (some str) =
    let str_len = length str in
    let avail_len = get_used r in
    if str_len == 0
    then false
    else if ltb avail_len str_len
    then false
    else ends_from r str avail_len 0 str_len

-- `none` is the result `false`; `*val` is then left alone.
unfoldable pub peek : ByteRingBuf → Option ℕ
peek r = if ltb 0 (get_used r) then some (get_or r.buf r.tail 0) else none

unfoldable pub pop : ByteRingBuf → Option ℕ × ByteRingBuf
pop r = elim (peek r) [
  | none ↦ (none, r)
  | some val ↦ (some val, record r { tail = add_size r.tail 1 % r.size })
]
