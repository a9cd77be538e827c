-- ===== src/Clients/Sms/Deliver/Fields.antt =====
-- The fields of a received message, one by one, as `read` of src/clients/sms.cpp decodes them.
use a76xx.Prelude.{
  ℕ, suc, ◌+◌, ◌-◌, ◌*◌, ◌/◌, ◌%◌, ◌≤◌, ◌<◌, ◌≡◌, refl, sym, ap, ◌∙◌, Bool, true, false, Option,
  none, some, [], ◌∷◌, ◌++◌, length, get_or, take, drop, take-copy_at, length-copy_at, get_or-drop,
  copy_at, ltb, leb, if◌then◌else◌, arith, map,
}
use a76xx.Serial.{Text}
use a76xx.SmsCoding.{unpack7_bit, extract_bcd_digits, store_bcd_digits}
use a76xx.SmsCoding.Bcd.{IsDigits, extract_bcd_digits-store_bcd_digits}
use a76xx.SmsCoding.Gsm.{decoded}
use a76xx.SmsCoding.Gsm.Front.{decode_gsm-front}
use a76xx.SmsCoding.Lengths.{length-unpack7_bit}
use a76xx.SmsCoding.Reads.{unpack7_bit-append, extract_bcd_digits-append}
use a76xx.SmsCoding.Septets.Value.{low7}
use a76xx.Clients.Sms.{SmsEncoding}
use a76xx.Clients.Sms.Receive.{
  SmsMessage, store, decode_into, number_sender, international_sender, decode_sender,
  decode_gsm_data, decode_data, sub_8,
}
use a76xx.Clients.Sms.Deliver.{fill_of, count_of, header_of, has_header, shown}

-- Two writes one behind the other.
take-twice :
    (array one two : Text)
    → length one + length two ≤ length array
    → take (length one + length two) (copy_at (copy_at array 0 one) (length one) two) ≡ one ++ two
take-twice array one two h =
    take-copy_at (copy_at array 0 one) (length one) two (omega (arith, length-copy_at array 0 one))
    ∙ ap (λ (t : Text). t ++ two)
        (let e : 0 + length one ≡ length one = omega arith in
          rw e at (take-copy_at array 0 one (omega arith)))

in_range : (n : ℕ) (array : Text) → n ≤ length array → leb n (length array) ≡ true
in_range n array fits = ground arith

fits_at :
    (array : Text) (off : ℕ) (src : Text)
    → off + length src ≤ length array
    → leb (off + length src) (length array) ≡ true
fits_at array off src h = ground arith

-- The sender is decoded from its digits.
pub sender_lem :
    (pdu : Text) (at : ℕ) (digits more old : Text) (international : Bool)
    → IsDigits digits
    → length digits ≤ 18
    → length old ≡ 20
    → drop at pdu ≡ store_bcd_digits digits (length digits) ++ more
    → (text : Text) × (decode_sender pdu
          (if international then 0x91 else 0x81)
          at
          (length digits)
          old
        ≡ some (true, text))
      × (take (length (shown international digits) + 1) text ≡ shown international digits ++ 0 ∷ [])
unfolding decode_sender number_sender international_sender store shown
sender_lem pdu at digits more old false is small size e =
    let (count, back) = extract_bcd_digits-store_bcd_digits digits is in
    let got : extract_bcd_digits (drop at pdu) (length digits) ≡ digits = rw e (
      extract_bcd_digits-append (store_bcd_digits digits (length digits)) more (length digits)
        (omega (arith, count))
      ∙ back) in
    let l = length-copy_at old 0 digits in
    let short : ltb 19 (length digits) ≡ false = ground arith in
    rw
      (
        short,
        got,
        fits_at old 0 digits (omega arith),
        fits_at (copy_at old 0 digits) (length digits) (0 ∷ []) (omega (arith, l)),
      )
      (_, refl, take-twice old digits (0 ∷ []) (omega arith))
sender_lem pdu at digits more old true is small size e =
    let (count, back) = extract_bcd_digits-store_bcd_digits digits is in
    let got : extract_bcd_digits (drop at pdu) (length digits) ≡ digits = rw e (
      extract_bcd_digits-append (store_bcd_digits digits (length digits)) more (length digits)
        (omega (arith, count))
      ∙ back) in
    let plus = copy_at old 0 (b'+' ∷ []) in
    let k = length-copy_at old 0 (b'+' ∷ []) in
    let l = length-copy_at plus 1 digits in
    let short : ltb 19 (length digits + 1) ≡ false = ground arith in
    let two : take (1 + length digits) (copy_at plus 1 digits) ≡ b'+' ∷ digits =
      take-twice old (b'+' ∷ []) digits (omega arith) in
    let ends : suc (length digits) + 1 ≡ length digits + 1 + 1 = omega arith in
    let turned : 1 + length digits ≡ length digits + 1 = omega arith in
    rw
      (
        fits_at old 0 (b'+' ∷ []) (omega arith),
        short,
        got,
        fits_at plus 1 digits (omega (arith, k)),
        fits_at (copy_at plus 1 digits) (length digits + 1) (0 ∷ []) (omega (arith, k, l)),
      )
      (
        _,
        refl,
        ap (λ n. take n (copy_at (copy_at plus 1 digits) (length digits + 1) (0 ∷ []))) ends
            ∙ take-copy_at (copy_at plus 1 digits) (length digits + 1) (0 ∷ [])
                (omega (arith, k, l))
            ∙ ap (λ (t : Text). t ++ 0 ∷ []) (rw turned at two),
      )

-- The text is decoded from its septets.
pub gsm_lem :
    (pdu : Text) (at fill : ℕ) (text packed behind : Text) (message : SmsMessage)
    → length message.raw ≡ 160
    → length message.decoded ≡ 161
    → length text ≤ 160
    → fill < 8
    → unpack7_bit packed (length text) fill ≡ low7 text
    → fill + 7 * length text ≤ 8 * length packed
    → drop at pdu ≡ packed ++ behind
    → (message' : SmsMessage) × (decode_gsm_data pdu at (length text) fill message
        ≡ some (true, message'))
      × (message'.sender ≡ message.sender)
      × (take (length text) message'.raw ≡ low7 text)
      × (message'.raw_len ≡ length text)
      × (message'.encoding ≡ SmsEncoding.gsm_char)
      × (take (length text + 1) message'.decoded ≡ map decoded (low7 text) ++ 0 ∷ [])
      × (message'.status ≡ message.status)
unfolding decode_gsm_data decode_into store
gsm_lem pdu at fill text packed behind message raw_size size small fill_small back enough e =
    let n = length text in
    let chars : unpack7_bit (drop at pdu) n fill ≡ low7 text =
      rw e (unpack7_bit-append packed behind n fill fill_small enough ∙ back) in
    let len : length (low7 text) ≡ n =
      ap (λ (l : Text). length l) (sym back) ∙ length-unpack7_bit packed n fill in
    let raw = copy_at message.raw 0 (low7 text) in
    let r = length-copy_at message.raw 0 (low7 text) in
    let (plain, f, same, front) =
      decode_gsm-front raw message.decoded n (omega arith) (omega arith) in
    let raw_front : take n raw ≡ low7 text =
      let z : 0 + length (low7 text) ≡ n = omega arith in
      rw z at (take-copy_at message.raw 0 (low7 text) (omega arith)) in
    let short : ltb 160 n ≡ false = ground arith in
    rw
      (
        short,
        chars,
        fits_at message.raw 0 (low7 text) (omega arith),
        in_range n message.decoded (omega arith),
        f,
        fits_at plain n (0 ∷ []) (omega arith),
      )
      (
        _,
        refl,
        refl,
        raw_front,
        refl,
        refl,
        take-copy_at plain n (0 ∷ []) (omega arith)
            ∙ ap (λ (t : Text). t ++ 0 ∷ []) (front ∙ ap (λ (t : Text). map decoded t) raw_front),
        refl,
      )

-- The user data behind its length: the header is skipped, and its length counted in septets.
pub data_lem :
    (pdu : Text) (at : ℕ) (header : Option Text) (text packed behind : Text) (message : SmsMessage)
    → length message.raw ≡ 160
    → length message.decoded ≡ 161
    → count_of header (length text) ≤ 160
    → unpack7_bit packed (length text) (fill_of header) ≡ low7 text
    → fill_of header + 7 * length text ≤ 8 * length packed
    → drop at pdu ≡ header_of header ++ (packed ++ behind)
    → decode_data pdu (has_header header) 0 at (count_of header (length text)) message
      ≡ decode_gsm_data pdu (at + length (header_of header)) (length text) (fill_of header) message
unfolding decode_data count_of header_of has_header fill_of sub_8
data_lem pdu at none text packed behind message raw_size size small back enough e = refl
data_lem pdu at (some header) text packed behind message raw_size size small back enough e =
    let first : get_or pdu at 0 ≡ length header =
      ap (λ k. get_or pdu k 0) (omega arith)
      ∙ sym (get_or-drop at pdu 0 0)
      ∙ ap (λ (t : Text). get_or t 0 0) e in
    let h : (length header + 1) % 256 ≡ suc (length header) = omega arith in
    let fill : (7 - suc (length header) % 7) % 7 ≡ (7 - 8 * (length header + 1) % 7) % 7 =
      omega arith in
    let udl = (8 * (length header + 1) + 6) / 7 + length text in
    let used = (8 * suc (length header) + (7 - 8 * (length header + 1) % 7) % 7) / 7 in
    let rest : (udl + 256 * (1 + used / 256) - used) % 256 ≡ length text = omega arith in
    rw (first, h, fill, rest) refl

pub fill_small : (header : Option Text) → fill_of header < 8
unfolding fill_of
fill_small none = omega arith
fill_small (some header) = omega arith

pub le-count_of : (header : Option Text) (n : ℕ) → n ≤ count_of header n
unfolding count_of
le-count_of none n = omega arith
le-count_of (some header) n = omega arith
