-- ===== src/Transport/Esp/Print.antt =====
-- src/modem_serial_esp.h: the overloads of printItem, and write.
use a76xx.Prelude.{ℕ, zero, suc, ◌+◌, ◌/◌, ◌%◌, [], ◌∷◌, ◌++◌, length, take, ltb, if◌then◌else◌}
use a76xx.Prelude.Int.{ℤ, pos, negsuc}
use a76xx.Serial.{Text, Item}
use a76xx.Transport.Uart.{Uart}
use a76xx.Transport.Esp.{ModemSerialEsp}
use a76xx.Transport.Esp.Bytes.{flush, write}

-- The decimal digits of a number that has no more than `k` of them.
unfoldable pub decimal_digits : ℕ → ℕ → Text
decimal_digits zero n = []
decimal_digits (suc k) n =
    let front = decimal_digits k (n / 10) in
    if ltb n 10 then (48 + n) ∷ [] else front ++ (48 + n % 10) ∷ []

-- `%u` and `%i` of the C library, on 32 bits.
unfoldable pub show_unsigned : ℕ → Text
unfolding decimal_digits
show_unsigned n = decimal_digits 10 n

unfoldable pub show_int : ℤ → Text
unfolding show_unsigned
show_int (pos n) = show_unsigned n
show_int (negsuc n) = b'-' ∷ show_unsigned (suc n)

-- `len = snprintf(buf, size, …)` and the `len` bytes that are then sent from `buf`: a text that does
-- not fit has been cut and terminated, and what lies behind the buffer is sent with it.
unfoldable pub formatted : Text → ℕ → Text → Text
formatted beyond zero text = take (length text) beyond
formatted beyond (suc size) text = take (length text) (take size text ++ 0 ∷ beyond)

-- What printItem hands to the driver.
unfoldable pub item_bytes : Text → Item → Text
unfolding formatted show_unsigned show_int
item_bytes beyond (Item.str text) = text
item_bytes beyond (Item.chr c) = c ∷ []
item_bytes beyond (Item.int z) = formatted beyond 10 (show_int z)
item_bytes beyond (Item.u16 n) = formatted beyond 6 (show_unsigned n)
item_bytes beyond (Item.unsigned_int n) = formatted beyond 10 (show_unsigned n)

-- Every overload ends with `flush`.
unfoldable pub print_item :
    {U : Type 0} → Uart U → Text → Item → ModemSerialEsp U → ModemSerialEsp U
unfolding item_bytes flush write
print_item driver beyond item s = flush driver (write driver (item_bytes beyond item) s).1
