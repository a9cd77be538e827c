-- ===== src/SmsCoding/Septets/Take.antt =====
-- pack7Bit of src/utils/smsCoding.cpp reads no more than the characters that it is to pack.
use a76xx.Prelude.{ℕ, ◌+◌, ◌≡◌, ap, List, take}
use a76xx.SmsCoding.{pack7_bit, pack_loop}

pub pack7_bit-take :
    (input input' : List ℕ) (n fill : ℕ)
    → take n input ≡ take n input'
    → pack7_bit input n fill ≡ pack7_bit input' n fill
unfolding pack7_bit
pack7_bit-take input input' n fill e = ap (λ xs. pack_loop (n + 2) 0 fill xs) e
