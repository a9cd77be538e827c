-- ===== src/Clients/Sms/Send/Parts.antt =====
-- send of src/clients/sms.cpp sends the parts of a text in their order, and their texts make up the
-- text.
use a76xx.Prelude.{
  ℕ, zero, suc, ◌+◌, ◌-◌, ◌/◌, ◌%◌, ◌^◌, ◌<◌, ◌≤◌, ◌≡◌, refl, sym, ap, ◌∙◌, inl, inr, Bool, true,
  false, Option, none, some, List, [], ◌∷◌, map, length, take, drop, length-take, length-drop,
  subst, min, arith, Bool-cases, ltb, leb, if◌then◌else◌,
}
use a76xx.Prelude.Int.{ℤ}
use a76xx.Serial.{Text, ModemSerial, Cmd, pure}
use a76xx.SmsCoding.Gsm.{encoded}
use a76xx.SmsCoding.Gsm.Front.{encode_gsm-front}
use a76xx.SmsCoding.Septets.Take.{pack7_bit-take}
use a76xx.Clients.{Session}
use a76xx.Clients.Steps.{Follows, pure-Follows, assert_bool-Follows, both-Follows}
use a76xx.Clients.Sms.{
  SmsEncoding, SmsMultipart, SmsUserData, pdu, body, send_pdu, send_single, or_empty,
}
use a76xx.Clients.Sms.Send.{encoded_part, send_bytes, part_info, user_data, send_loop, send}
use a76xx.Clients.Sms.Send.Chunks.{
  chunks, join, part_size, part_count, parts_info, Fills, AllFit, chunks_lem, parts_Fills,
}

-- The message that carries one part.
unfoldable pub part_data : Bool → Text → SmsUserData
part_data char_is_signed part = record {
  encoding = SmsEncoding.gsm_char;
  bytes = map (encoded char_is_signed) part;
  len = length part;
}

-- The PDUs of the parts, numbered from `number` on.
unfoldable pub part_pdus : Bool → Text → Option (ℕ × ℕ) → ℕ → List Text → List Text
unfolding part_data
part_pdus char_is_signed destination info number [] = []
part_pdus char_is_signed destination info number (part ∷ parts) =
    pdu destination (part_data char_is_signed part) (part_info info number)
    ∷ part_pdus char_is_signed destination info (suc number) parts

-- Two arrays with the same front give one PDU.
pdu-front :
    (destination bytes bytes' : Text) (n : ℕ) (multipart : Option SmsMultipart)
    → n < 256
    → take n bytes ≡ take n bytes'
    → pdu destination (record { encoding = SmsEncoding.gsm_char; bytes = bytes; len = n }) multipart
      ≡ pdu destination
          (record { encoding = SmsEncoding.gsm_char; bytes = bytes'; len = n })
          multipart
unfolding pdu body
pdu-front destination bytes bytes' n multipart small e =
    let same : n % 256 ≡ n = omega arith in rw same (rw (pack7_bit-take bytes bytes' n _ e) refl)

take-map : (f : ℕ → ℕ) (xs : Text) → take (length xs) (map f xs) ≡ map f xs
take-map f [] = refl
take-map f (x ∷ xs) = ap (λ (t : Text). f x ∷ t) (take-map f xs)

drop-drop : (m n : ℕ) (xs : Text) → drop n (drop m xs) ≡ drop (m + n) xs
drop-drop zero n xs = ap (λ k. drop k xs) (omega arith)
drop-drop (suc m) n [] = drop_nil n ∙ sym (drop_nil (suc m + n))
  where
    drop_nil : (k : ℕ) → drop {A = ℕ} k [] ≡ []
    drop_nil zero = refl
    drop_nil (suc k) = refl
drop-drop (suc m) n (x ∷ xs) =
    let e : suc m + n ≡ suc (m + n) = omega arith in rw e (drop-drop m n xs)

drop_past : (k : ℕ) (xs : Text) → length xs ≤ k → drop k xs ≡ []
drop_past zero [] h = refl
drop_past zero (x ∷ xs) h = absurd (omega arith)
drop_past (suc k) [] h = refl
drop_past (suc k) (x ∷ xs) h = drop_past k xs (omega arith)

-- What is behind the next part, whether it is a full one or the last.
behind :
    (size idx n : ℕ) (xs : Text)
    → n ≡ min size (length xs - idx)
    → idx < length xs
    → drop size (drop idx xs) ≡ drop (idx + n) xs
behind size idx n xs e more = elim (Bool-cases (ltb (length xs - idx) size)) [
  | inl last ↦
      drop_past size (drop idx xs) (ground (arith, length-drop idx xs))
      ∙ sym (drop_past (idx + n) xs (ground arith))
  | inr full ↦ let same : n ≡ size = ground arith in rw same (drop-drop idx size xs)
]

chunk-take : (size : ℕ) (xs : Text) → take (length (take size xs)) xs ≡ take size xs
chunk-take zero xs = refl
chunk-take (suc size) [] = refl
chunk-take (suc size) (x ∷ xs) = ap (λ (t : Text). x ∷ t) (chunk-take size xs)

module _ {S F : Type 0} (serial : ModemSerial S F) (char_is_signed : Bool) (destination text : Text)
    (size : ℕ) (info : Option (ℕ × ℕ)) where
  -- One round sends the PDU of the part, and keeps the size of the array.
  round_pdu :
      (idx number : ℕ) (bytes : Text)
      → idx < length text
      → 0 < size
      → size ≤ 160
      → length bytes ≡ 160
      → let n = send_bytes (length text) idx size in
        let message = user_data char_is_signed text idx n bytes in
        (n ≡ min size (length text - idx))
        × (length message.bytes ≡ 160)
        × (pdu destination message (part_info info number)
            ≡ pdu destination
                (part_data char_is_signed (take size (drop idx text)))
                (part_info info number))
  unfolding user_data encoded_part or_empty part_data send_bytes
  round_pdu idx number bytes more pos small len =
      let part = take size (drop idx text) in
      let n = send_bytes (length text) idx size in
      let n_min : n ≡ min size (length text - idx) = ground arith in
      let n_len : n ≡ length part =
        omega (arith, length-take size (drop idx text), length-drop idx text) in
      let (code, e, len', front) =
        encode_gsm-front char_is_signed (drop idx text) bytes n (omega arith) (omega arith)
          (omega (arith, length-drop idx text)) in
      rw e (
        n_min,
        len' ∙ len,
        ap
              (λ k.
                pdu destination (record { encoding = SmsEncoding.gsm_char; bytes = code; len = k })
                  (part_info info number))
              n_len
            ∙ pdu-front destination code (map (encoded char_is_signed) part) (length part)
                (part_info info number) (omega arith)
                (subst (λ k. take k code ≡ map (encoded char_is_signed) (take k (drop idx text)))
                    n_len front
                  ∙ ap (λ (t : Text). map (encoded char_is_signed) t)
                      (chunk-take size (drop idx text))
                  ∙ sym (take-map (encoded char_is_signed) part)),
      )

  send_single-Follows :
      (message : SmsUserData) (multipart : Option SmsMultipart)
      → Follows
          (send_pdu serial (pdu destination message multipart) ∷ [])
          (send_single serial destination message multipart)
  unfolding send_single
  send_single-Follows message multipart =
      assert_bool-Follows (send_pdu serial (pdu destination message multipart)) [] (pure true)
        (pure-Follows S)

  same_pdu :
      {p p' : Text} (rest : List (Cmd S ℤ)) (f : Cmd (Session S) Bool)
      → p ≡ p'
      → Follows (send_pdu serial p ∷ rest) f
      → Follows (send_pdu serial p' ∷ rest) f
  same_pdu rest f e h = subst (λ q. Follows (send_pdu serial q ∷ rest) f) e h

  -- What the loop sends from an index on.
  send_loop-Follows :
      (left number idx : ℕ) (bytes : Text)
      → Fills size left (length text - idx)
      → 0 < size
      → size ≤ 160
      → length bytes ≡ 160
      → Follows
          (map
            (send_pdu serial)
            (part_pdus char_is_signed destination info number (chunks size left (drop idx text))))
          (send_loop serial char_is_signed destination text
            (length text)
            size
            info
            number
            idx
            left
            bytes)
  unfolding part_pdus chunks send_loop
  send_loop-Follows zero number idx bytes fills pos small len = pure-Follows S
  send_loop-Follows (suc left) number idx bytes fills pos small len =
      let (n_min, len', same) = round_pdu idx number bytes (omega arith) pos small len in
      let n = send_bytes (length text) idx size in
      let more : leb (length text) idx ≡ false = ground arith in
      let message = user_data char_is_signed text idx n bytes in
      let room : length text - idx - size ≡ length text - (idx + n) = omega arith in
      rw (more, behind size idx n text n_min (omega arith))
        (same_pdu _ _ same (
          both-Follows (send_pdu serial (pdu destination message (part_info info number)) ∷ []) _ _
            (send_loop serial char_is_signed destination text (length text) size info (suc number)
              (idx + n) left message.bytes)
            (send_single-Follows message (part_info info number))
            (send_loop-Follows left (suc number) (idx + n) message.bytes
              (subst (λ k. Fills size left k) room fills.1) pos small len')))

-- A text of 1 to 459 characters is sent in one part of up to 160 characters, or in as many parts of
-- up to 153 as it needs, at most three: `send` runs the commands of their PDUs in the order of the
-- text, up to the first that fails, numbers the parts from 1, and tells all of them the message
-- reference and their number. The texts of the parts make up the text; no part is empty. When there is
-- more than one part, the reference is counted up, as an `uint8_t`, whether the commands succeed or
-- not; otherwise it is kept. The array that holds a part has 160 bytes.
pub send-Follows :
    {S F : Type 0} (serial : ModemSerial S F) (char_is_signed : Bool)
    (destination text bytes : Text) (message_reference : ℕ)
    → 0 < length text
    → length text ≤ 459
    → length bytes ≡ 160
    → let parts = chunks (part_size text) (part_count text) text in
      (join parts ≡ text)
      × (length parts ≡ part_count text)
      × AllFit (part_size text) parts
      × Follows
          (map
            (send_pdu serial)
            (part_pdus char_is_signed destination (parts_info text message_reference) 1 parts))
          (λ c.
            let ((sent, reference), c') =
              send serial char_is_signed destination text bytes message_reference c in
            (sent, c'))
      × ((c : Session S)
          → (send serial char_is_signed destination text bytes message_reference c).0.1
            ≡ (if ltb 1 (length parts) then (message_reference + 1) % 256 else message_reference))
unfolding part_size part_count parts_info send
send-Follows serial char_is_signed destination text bytes message_reference pos small len =
    let fills = parts_Fills text pos small in
    let (joined, count, fit) =
      chunks_lem (part_size text) (part_count text) text (size_pos text) fills in
    let e : length text % 2 ^ 16 ≡ length text = omega arith in
    let f : ltb 459 (length text) ≡ false = ground arith in
    (
      joined,
      count,
      fit,
      elim (Bool-cases (ltb 160 (length text))) [
        | inl big ↦
            rw (e, f, big)
              (send_loop-Follows serial char_is_signed destination text 153
                (some (message_reference, (length text + 152) / 153)) ((length text + 152) / 153) 1
                0 bytes (from_start 153 _ (rw big at fills)) (omega arith) (omega arith) len)
        | inr short ↦
            rw (e, f, short)
              (send_loop-Follows serial char_is_signed destination text 160 none 1 1 0 bytes
                (from_start 160 1 (rw short at fills)) (omega arith) (omega arith) len)
      ],
      λ c. rw count (elim (Bool-cases (ltb 160 (length text))) [
        | inl big ↦
            let many : ltb 1 ((length text + 152) / 153) ≡ true = ground arith in
            rw (e, f, big, many) refl
        | inr short ↦ rw (e, f, short) refl
      ]),
    )
  where
    size_pos : (xs : Text) → 0 < part_size xs
    size_pos xs = ground arith

    from_start : (size left : ℕ) → Fills size left (length text) → Fills size left (length text - 0)
    from_start size left h =
        let z : length text ≡ length text - 0 = omega arith in subst (λ k. Fills size left k) z h
