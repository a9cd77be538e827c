-- ===== src/Ring/Tests.antt =====
-- Runs of the ring at concrete bytes.
use a76xx.Prelude.{
  ℕ, ◌<◌, ◌≡◌, ◌↔◌, refl, min, none, some, true, List, [], ◌∷◌, ◌++◌, arith, take, drop, length,
  if◌then◌else◌, ◌==◌,
}
use a76xx.Ring.{
  ByteRingBuf, CmpMatch, get_free, get_used, write, read, compare, ends_with, peek, pop, same_from,
}
use a76xx.Ring.Inv.{IsValid, write-IsValid}
use a76xx.Ring.Contents.{contents}
use a76xx.Ring.Write.{contents-write}
use a76xx.Ring.Read.{read_lem, peek_pop_lem, uncons}
use a76xx.Ring.Match.{front, compare_lem, EndsIn, ends_with_lem}

-- A ring of four slots that holds the bytes 8 and 9, round the end of the buffer.
abbrev wrapped : ByteRingBuf
wrapped = record { buf = 9 ∷ 0 ∷ 7 ∷ 8 ∷ []; size = 4; head = 1; tail = 3 }

wrapped-IsValid : IsValid wrapped
wrapped-IsValid = omega arith

contents-wrapped : contents wrapped ≡ 8 ∷ 9 ∷ []
unfolding get_used
contents-wrapped = refl

abbrev pattern_text : List ℕ
pattern_text = 8 ∷ 9 ∷ 1 ∷ []

abbrev ending : List ℕ
ending = 9 ∷ []

-- Two more bytes: the first one held falls out.
overwritten : contents (write wrapped (1 ∷ 2 ∷ []) 2).1 ≡ 9 ∷ 1 ∷ 2 ∷ []
unfolding write get_used get_free
overwritten = refl

write-IsValid_example : IsValid (write wrapped (1 ∷ 2 ∷ []) 2).1
write-IsValid_example = write-IsValid (1 ∷ 2 ∷ []) 2 wrapped-IsValid

contents-write_example :
    contents (write wrapped (1 ∷ 2 ∷ []) 2).1 ≡ drop 1 (contents wrapped ++ 1 ∷ 2 ∷ [])
unfolding get_used
contents-write_example = contents-write (1 ∷ 2 ∷ []) 2 wrapped-IsValid (omega arith)

read_lem_example :
    let k = min 1 (get_used wrapped) in
    ((read wrapped 1).0 ≡ k)
    × ((read wrapped 1).1 ≡ take k (contents wrapped))
    × (contents (read wrapped 1).2 ≡ drop k (contents wrapped))
read_lem_example = read_lem 1 wrapped-IsValid

peek_pop_lem_example :
    (peek wrapped ≡ (uncons (contents wrapped)).0)
    × ((pop wrapped).0 ≡ (uncons (contents wrapped)).0)
    × (contents (pop wrapped).1 ≡ (uncons (contents wrapped)).1)
    × (get_used wrapped ≡ 0 → (pop wrapped).1 ≡ wrapped)
peek_pop_lem_example = peek_pop_lem wrapped-IsValid

compare_lem_example :
    (compare wrapped none ≡ CmpMatch.no_match)
    × (compare wrapped (some pattern_text) ≡ (
        if get_used wrapped == 0
        then CmpMatch.no_match
        else if length pattern_text == 0
        then CmpMatch.no_match
        else front pattern_text (contents wrapped)))
compare_lem_example = compare_lem pattern_text wrapped-IsValid

compare_partly : compare wrapped (some pattern_text) ≡ CmpMatch.match_part
unfolding compare same_from get_used
compare_partly = refl

ends_with_lem_example :
    (ends_with wrapped (some ending) ≡ true)
    ↔ ((0 < length ending) × EndsIn (contents wrapped) ending)
ends_with_lem_example = ends_with_lem ending wrapped-IsValid
