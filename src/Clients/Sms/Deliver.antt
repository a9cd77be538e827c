-- ===== src/Clients/Sms/Deliver.antt =====
-- A message that was received, written the way GSM 03.40 lays it out, is what `read` of
-- src/clients/sms.cpp finds in it.
pub mod Fields
pub mod Decode
use a76xx.Prelude.{
  ℕ, ◌+◌, ◌-◌, ◌*◌, ◌/◌, ◌%◌, ◌≡◌, Bool, true, false, Option, none, some, [], ◌∷◌, ◌++◌, length,
  take, if◌then◌else◌, map,
}
use a76xx.Serial.{Text}
use a76xx.SmsCoding.{store_bcd_digits}
use a76xx.SmsCoding.Gsm.{decoded}
use a76xx.SmsCoding.Septets.Value.{low7}
use a76xx.Clients.Sms.{SmsEncoding}
use a76xx.Clients.Sms.Receive.{SmsMessage}

-- A message in the 7-bit alphabet: the bytes about the service centre, the sender, the time stamp,
-- and the text behind a header, if it has one.
pub record Deliver : Type 0 where
  pub smsc : Text
  pub international : Bool
  pub digits : Text
  pub stamp : Text
  pub header : Option Text
  pub text : Text

-- The bits that fill the header up to a whole septet.
unfoldable pub fill_of : Option Text → ℕ
fill_of none = 0
fill_of (some header) = (7 - 8 * (length header + 1) % 7) % 7

-- The length of the user data in septets, and the header behind its own length.
unfoldable pub count_of : Option Text → ℕ → ℕ
count_of none n = n
count_of (some header) n = (8 * (length header + 1) + 6) / 7 + n

unfoldable pub header_of : Option Text → Text
header_of none = []
header_of (some header) = length header ∷ header

unfoldable pub has_header : Option Text → Bool
has_header none = false
has_header (some header) = true

-- The bytes, with `packed` the septets of the text behind the fill bits.
unfoldable pub deliver : Deliver → Text → Text
unfolding count_of header_of has_header
deliver m packed =
    length m.smsc ∷ m.smsc
    ++ ((if has_header m.header then 0x44 else 0x04)
          ∷ length m.digits
          ∷ (if m.international then 0x91 else 0x81)
          ∷ store_bcd_digits m.digits (length m.digits)
        ++ (0 ∷ 0 ∷ m.stamp ++ (count_of m.header (length m.text) ∷ header_of m.header ++ packed)))

-- The number as `read` shows it.
unfoldable pub shown : Bool → Text → Text
shown true digits = b'+' ∷ digits
shown false digits = digits

-- What a receiver is to find; every text ends with a null character.
pub record Decodes (m : Deliver) (old message : SmsMessage) : Type 0 where
  pub sender :
      take (length (shown m.international m.digits) + 1) message.sender
      ≡ shown m.international m.digits ++ 0 ∷ []
  pub raw : take (length m.text) message.raw ≡ low7 m.text
  pub raw_len : message.raw_len ≡ length m.text
  pub encoding : message.encoding ≡ SmsEncoding.gsm_char
  pub decoded_text : take (length m.text + 1) message.decoded ≡ map decoded (low7 m.text) ++ 0 ∷ []
  pub status : message.status ≡ old.status
