-- ===== src/Commands/Gnss/Mask.antt =====
-- The mask of setNMEASentence of src/commands/gnss.h.
use a76xx.Prelude.{
  ℕ, ◌+◌, ◌*◌, ◌<◌, ltb, ◌==◌, ==_iff, if◌then◌else◌, Bool, true, false, Option, none, some, List,
  [], ◌∷◌, ◌≡◌, refl, ap, arith,
}
use a76xx.Prelude.Int.{pos}
use a76xx.Serial.{Item}
use a76xx.Prelude.Bits.{holds_under, holds_under_sound}
use a76xx.Commands.Gnss.{nmea_items}

-- The value of the numbers among the items, the first of them the lowest binary digit; none when
-- one of them is not a digit.
unfoldable mask_of : List Item → Option ℕ
mask_of [] = some 0
mask_of (Item.int (pos n) ∷ items) = elim (mask_of items) [
  | none ↦ none
  | some m ↦ if ltb n 2 then some (n + 2 * m) else none
]
mask_of (_ ∷ items) = mask_of items

mask_test : ℕ → Bool
mask_test mask = elim (mask_of (nmea_items mask)) [ none ↦ false | some m ↦ m == mask ]

mask_table : holds_under 256 mask_test ≡ true
unfolding holds_under mask_test mask_of nmea_items
mask_table = refl

option_test :
    (o : Option ℕ) (mask : ℕ) → elim o [ none ↦ false | some m ↦ m == mask ] ≡ true → o ≡ some mask
option_test none mask h = ground arith
option_test (some m) mask h = ap some ((==_iff m mask).0 h)

-- The eight numbers that are sent for a mask of eight bits are its binary digits, from the lowest.
nmea_items_lem : (mask : ℕ) → mask < 256 → mask_of (nmea_items mask) ≡ some mask
unfolding mask_test
nmea_items_lem mask h =
    option_test (mask_of (nmea_items mask)) mask (holds_under_sound 256 mask_test mask mask_table h)
