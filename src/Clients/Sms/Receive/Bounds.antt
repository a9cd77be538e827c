-- ===== src/Clients/Sms/Receive/Bounds.antt =====
-- read of src/clients/sms.cpp stays inside the arrays of the message, whatever the PDU holds.
use a76xx.Prelude.{
  ℕ, ◌+◌, ◌*◌, ◌/◌, ◌≤◌, ◌≡◌, ◌∙◌, inl, inr, Bool, true, false, not, Option, none, some, [], ◌∷◌,
  ◌++◌, ◌-◌, length, length-copy_at, length-tabulate, copy_at, drop, ltb, leb, ◌==◌, if◌then◌else◌,
  arith, Bool-cases, bit_and, get_or, ◌%◌, tabulate,
}
use a76xx.Prelude.Int.{ℤ, is_zero}
use a76xx.Serial.{Text}
use a76xx.SmsCoding.{unpack7_bit, decode_gsm, extract_bcd_digits, decode_ucs2}
use a76xx.SmsCoding.Gsm.Front.{decode_gsm-front, decode_gsm-in_place}
use a76xx.SmsCoding.Lengths.{length-unpack7_bit, length-extract_bcd_digits, length-decode_ucs2}
use a76xx.Commands.Sms.{SmsRead}
use a76xx.Clients.Sms.Receive.{
  SmsMessage, store, decode_in_place, decode_into, number_sender, international_sender,
  alphanumeric_sender, decode_sender, decode_gsm_data, decode_ucs2_data, decode_data, behind_sender,
  decode_pdu, decode_read, or_status, sub_8,
}

-- The result is there, and holds `P`.
abbrev pub Holds : {A : Type 0} → (A → Type 0) → Option A → Type 0
Holds P none = ⊥
Holds P (some a) = P a

-- The arrays of a message have the sizes that the constants give them.
pub record IsSized (message : SmsMessage) : Type 0 where
  pub sender : length message.sender ≡ 20
  pub raw : length message.raw ≡ 160
  pub decoded : length message.decoded ≡ 161

-- What is written fits, and the array keeps its size.
stored :
    {size : ℕ} (array : Text) (off : ℕ) (src : Text)
    → length array ≡ size
    → off + length src ≤ size
    → (leb (off + length src) (length array) ≡ true) × (length (copy_at array off src) ≡ size)
stored array off src len fits = (ground arith, length-copy_at array off src ∙ len)

in_range : (n : ℕ) (array : Text) → n ≤ length array → leb n (length array) ≡ true
in_range n array fits = ground arith

abbrev Sender : Bool × Text → Type 0
Sender r = length r.1 ≡ 20

module _ (pdu : Text) (at addr_len : ℕ) (sender : Text) (len : length sender ≡ 20) where
  number_lem : addr_len ≤ 19 → Holds Sender (number_sender pdu at addr_len sender)
  unfolding number_sender store
  number_lem small =
      let digits = extract_bcd_digits (drop at pdu) addr_len in
      let n = length-extract_bcd_digits (drop at pdu) addr_len in
      let (e, l) = stored sender 0 digits len (omega arith) in
      let (f, m) = stored (copy_at sender 0 digits) addr_len (0 ∷ []) l (omega arith) in rw (e, f) m

  international_lem : Holds Sender (international_sender pdu at addr_len sender)
  unfolding international_sender store
  international_lem =
      let digits = extract_bcd_digits (drop at pdu) addr_len in
      let n = length-extract_bcd_digits (drop at pdu) addr_len in
      let (d, k) = stored sender 0 (b'+' ∷ []) len (omega arith) in
      let plus = copy_at sender 0 (b'+' ∷ []) in
      rw d (elim (Bool-cases (ltb 19 (addr_len + 1))) [
        | inl long ↦ rw long k
        | inr short ↦
            let small : addr_len + 1 ≤ 19 = ground arith in
            let (e, l) = stored plus 1 digits k (omega arith) in
            let (f, m) = stored (copy_at plus 1 digits) (addr_len + 1) (0 ∷ []) l (omega arith) in
            rw (short, e, f) m
      ])

  alphanumeric_lem : Holds Sender (alphanumeric_sender pdu at addr_len sender)
  unfolding alphanumeric_sender store decode_in_place
  alphanumeric_lem =
      let n = addr_len * 4 / 7 in
      let chars = unpack7_bit (drop at pdu) n 0 in
      let c = length-unpack7_bit (drop at pdu) n 0 in
      elim (Bool-cases (ltb 19 n)) [
        | inl long ↦ rw long len
        | inr short ↦
            let small : n ≤ 19 = ground arith in
            let (e, l) = stored sender 0 chars len (omega arith) in
            let raw = copy_at sender 0 chars in
            let k : length (decode_gsm raw n true none).0 ≡ 20 =
              (decode_gsm-in_place raw n (omega arith)).0 ∙ l in
            let (f, m) = stored (decode_gsm raw n true none).0 n (0 ∷ []) k (omega arith) in
            rw (short, e, in_range n raw (omega arith), f) m
      ]

  sender_lem : (type_of_addr : ℕ) → Holds Sender (decode_sender pdu type_of_addr at addr_len sender)
  unfolding decode_sender
  sender_lem type_of_addr = elim (Bool-cases (bit_and type_of_addr 0x70 == 0x50)) [
    | inl alpha ↦ rw alpha alphanumeric_lem
    | inr f ↦ rw f (elim (Bool-cases (bit_and type_of_addr 0x70 == 0x10)) [
      | inl international ↦ rw international international_lem
      | inr g ↦ rw g (elim (Bool-cases (ltb 19 addr_len)) [
        | inl e ↦ rw e len
        | inr e ↦ rw e (number_lem (ground arith))
      ])
    ])
  ]

abbrev Sized : Bool × SmsMessage → Type 0
Sized r = IsSized r.1

module _ (pdu : Text) (at udl : ℕ) (message : SmsMessage) (sized : IsSized message) where
  gsm_lem : (fillbits : ℕ) → Holds Sized (decode_gsm_data pdu at udl fillbits message)
  unfolding decode_gsm_data store decode_into
  gsm_lem fillbits = elim (Bool-cases (ltb 160 udl)) [
    | inl long ↦ rw long sized
    | inr short ↦
        let small : udl ≤ 160 = ground arith in
        let chars = unpack7_bit (drop at pdu) udl fillbits in
        let c = length-unpack7_bit (drop at pdu) udl fillbits in
        let (e, l) = stored message.raw 0 chars sized.raw (omega arith) in
        let raw = copy_at message.raw 0 chars in
        let (text, f, k, front) =
          decode_gsm-front raw message.decoded udl (omega arith) (omega (arith, sized.decoded)) in
        let (g, m) = stored text udl (0 ∷ []) (k ∙ sized.decoded) (omega arith) in
        rw (short, e, in_range udl message.decoded (omega (arith, sized.decoded)), f, g)
          record { sender = sized.sender; raw = l; decoded = m }
  ]

  ucs2_lem : Holds Sized (decode_ucs2_data pdu at udl message)
  unfolding decode_ucs2_data store
  ucs2_lem = elim (Bool-cases (ltb 160 udl)) [
    | inl long ↦ rw long sized
    | inr short ↦
        let small : udl ≤ 160 = ground arith in
        let half : ltb 160 (udl / 2) ≡ false = ground arith in
        let bytes = tabulate at udl (λ i. get_or pdu i 0) in
        let b = length-tabulate at udl (λ i. get_or pdu i 0) in
        let chars = decode_ucs2 (drop at pdu) (udl / 2) in
        let c = length-decode_ucs2 (drop at pdu) (udl / 2) in
        let (e, l) = stored message.raw 0 bytes sized.raw (omega arith) in
        let (f, k) = stored message.decoded 0 chars sized.decoded (omega arith) in
        let (g, m) = stored (copy_at message.decoded 0 chars) (udl / 2) (0 ∷ []) k (omega arith) in
        rw (short, e, half, f, g) record { sender = sized.sender; raw = l; decoded = m }
  ]

data_lem :
    (pdu : Text) (udh : Bool) (dcs at udl : ℕ) (message : SmsMessage)
    → IsSized message
    → Holds Sized (decode_data pdu udh dcs at udl message)
unfolding decode_data
data_lem pdu udh dcs at udl message sized =
    let header = if udh then (get_or pdu at 0 + 1) % 256 else 0 in
    let fill = if udh then (7 - header % 7) % 7 else 0 in
    elim (Bool-cases (dcs == 0x00)) [
      | inl e ↦ rw e (
          gsm_lem pdu (at + header) (if udh then sub_8 udl ((8 * header + fill) / 7) else udl)
            message sized fill)
      | inr e ↦ rw e (elim (Bool-cases (dcs == 0x08)) [
        | inl f ↦
            rw f (ucs2_lem pdu (at + header) (if udh then sub_8 udl header else udl) message sized)
        | inr f ↦ rw f sized
      ])
    ]

behind_lem :
    (pdu : Text) (udh : Bool) (at addr_len : ℕ) (message : SmsMessage) (o : Option (Bool × Text))
    → IsSized message
    → Holds Sender o
    → Holds Sized (behind_sender pdu udh at addr_len message o)
unfolding behind_sender
behind_lem pdu udh at addr_len message none sized h = h
behind_lem pdu udh at addr_len message (some (false, sender)) sized h = record {
  sender = h;
  raw = sized.raw;
  decoded = sized.decoded;
}
behind_lem pdu udh at addr_len message (some (true, sender)) sized h =
    data_lem pdu udh (get_or pdu (at + (addr_len + 1) / 2 + 1) 0) (at + (addr_len + 1) / 2 + 10)
      (get_or pdu (at + (addr_len + 1) / 2 + 9) 0) (record message { sender = sender })
      (record { sender = h; raw = sized.raw; decoded = sized.decoded })

pdu_lem :
    (pdu : Text) (message : SmsMessage) → IsSized message → Holds Sized (decode_pdu pdu message)
unfolding decode_pdu
pdu_lem pdu message sized =
    elim (Bool-cases (not (bit_and (get_or pdu (1 + get_or pdu 0 0) 0) 0x03 == 0))) [
      | inl e ↦ rw e sized
      | inr e ↦
          let start = 1 + get_or pdu 0 0 in
          let addr_len = get_or pdu (start + 1) 0 in
          let sender =
            decode_sender pdu (get_or pdu (start + 2) 0) (start + 3) addr_len message.sender in
          rw e (
            behind_lem pdu (not (bit_and (get_or pdu start 0) 0x40 == 0)) (start + 3) addr_len
              message sender sized
              (sender_lem pdu (start + 3) addr_len message.sender sized.sender
                (get_or pdu (start + 2) 0)))
    ]

-- Whatever the command gives, `read` writes to the sender, the raw data and the decoded text of a
-- message only within their sizes of 20, 160 and 161 bytes, on every branch, and returns.
pub decode_read_lem :
    (unset : Text) (message : SmsMessage) (result : ℤ × SmsRead)
    → IsSized message
    → Holds (λ r. IsSized r.1) (decode_read unset message result)
unfolding decode_read
decode_read_lem unset message (retcode, result) sized = elim (Bool-cases (is_zero retcode)) [
  | inl e ↦ rw e (
      pdu_lem (result.stored ++ drop (length result.stored) unset)
        (record message { status = or_status message.status result.status })
        (record { sender = sized.sender; raw = sized.raw; decoded = sized.decoded }))
  | inr e ↦ rw e (record { sender = sized.sender; raw = sized.raw; decoded = sized.decoded })
]
