-- ===== src/Commands/Sms/Read.antt =====
-- The reading of a message in src/commands/sms.h: what the digits on the line give, and that the
-- caller's buffer is kept.
use a76xx.Prelude.{
  ℕ, zero, suc, ◌+◌, ◌-◌, ◌%◌, ◌^◌, ◌<◌, ◌≤◌, ltb, ◌==◌, Bool, true, false, not, ◌||◌, Option, none,
  some, List, [], ◌∷◌, ◌++◌, length, ◌≡◌, refl, inl, inr, Bool-cases, arith,
}
use a76xx.Prelude.Int.{ℤ, pos, is_zero}
use a76xx.Prelude.{codes}
use a76xx.Serial.{Text, Item, Response, Cmd, ModemSerial, txt, send_cmd, wait_0, wait_1, process}
use a76xx.SmsCoding.{byte_to_hex_pair}
use a76xx.SmsCoding.Hex.{hex_pair_to_byte-byte_to_hex_pair}
use a76xx.SmsCoding.Gsm.{AllBytes}
use a76xx.Commands.Sms.{
  SmsRead, set_message_format, is_match_1st, position, read_char, read_pair, read_pairs, push_byte,
  read_rest, read_first, read_end, read_pdu, read_switch, read, list, list_loop, with_message,
  SmsPosition,
}

-- Two characters for every byte.
unfoldable pub hex_text : Text → Text
hex_text [] = []
hex_text (b ∷ bytes) = (byte_to_hex_pair b).0 ∷ (byte_to_hex_pair b).1 ∷ hex_text bytes

-- `Line text s` says that in the state `s` the text is on the line, and `reads` that `readBytes` takes
-- its next character.
module _ {S F : Type 0} (serial : ModemSerial S F) (Line : Text → S → Type 0)
    (reads : (c : ℕ) (cs : Text) (s : S)
      → Line (c ∷ cs) s
      → ((serial.read_bytes (pos 1) s).0 ≡ (1, c ∷ []))
        × Line cs (serial.read_bytes (pos 1) s).1) where
  read_pair_lem :
      (high low b : ℕ) (rest : Text) (s : S)
      → b < 256
      → let (h, l) = byte_to_hex_pair b in
        Line (h ∷ l ∷ rest) s
        → ((read_pair serial high low s).0 ≡ (some b, h, l))
          × Line rest (read_pair serial high low s).1
  unfolding read_pair read_char
  read_pair_lem high low b rest s byte on =
      let (h, l) = byte_to_hex_pair b in
      let p = hex_pair_to_byte-byte_to_hex_pair b byte in
      let first = reads h (l ∷ rest) s on in
      let second = reads l rest _ first.1 in (rw (first.0, second.0, p.0, p.1, p.2) refl, second.1)

  read_pairs_lem :
      (high low : ℕ) (bytes rest : Text) (s : S)
      → AllBytes bytes
      → Line (hex_text bytes ++ rest) s
      → ((read_pairs serial high low (length bytes) s).0 ≡ (bytes, true))
        × Line rest (read_pairs serial high low (length bytes) s).1
  unfolding read_pairs push_byte hex_text
  read_pairs_lem high low [] rest s all on = (refl, on)
  read_pairs_lem high low (b ∷ bytes) rest s all on =
      let (h, l) = byte_to_hex_pair b in
      let pair = read_pair_lem high low b (hex_text bytes ++ rest) s all.0 on in
      let more = read_pairs_lem h l bytes rest _ all.1 pair.1 in
      rw pair.0 (rw more.0 (refl, more.1))

  -- The line behind the message, and the answer that the command gives there.
  pub read_pdu-Line :
      (buf_len high low pdu_len : ℕ) (status : Option ℤ) (smsc : ℕ) (bytes rest : Text) (s : S)
      → AllBytes (smsc ∷ bytes)
      → length bytes ≡ smsc + pdu_len
      → length bytes < buf_len
      → buf_len < 2 ^ 16
      → Line (hex_text (smsc ∷ bytes) ++ rest) s
      → (s' : S) × Line rest s'
        × (let (retcode, s'') = process serial (wait_0 serial 9000 true true) s' in
            read_pdu serial buf_len high low pdu_len status s ≡ (
              (
                retcode,
                record {
                  stored = smsc ∷ bytes;
                  msg_len = some (length (smsc ∷ bytes));
                  status = status;
                },
              ),
              s'',
            ))
  unfolding read_pdu read_first read_rest read_end hex_text
  read_pdu-Line buf_len high low pdu_len status smsc bytes rest s all len fits small on =
      let (h, l) = byte_to_hex_pair smsc in
      let e : (smsc + 1 + pdu_len) % 2 ^ 16 ≡ suc (length bytes) = omega arith in
      let d : suc (length bytes) - 1 ≡ length bytes = omega arith in
      let f : ltb buf_len (suc (length bytes)) ≡ false = ground arith in
      let pair = read_pair_lem high low smsc (hex_text bytes ++ rest) s all.0 on in
      let more = read_pairs_lem h l bytes rest _ all.1 pair.1 in
      (_, more.1, rw (pair.0, e, f, d, more.0) refl)

-- `line` is the state in which those characters are on the line, and `reads` that `readBytes` takes
-- the next one.
module _ {S F : Type 0} (serial : ModemSerial S F) (line : Text → S)
    (reads : (c : ℕ) (cs : Text)
      → serial.read_bytes (pos 1) (line (c ∷ cs)) ≡ ((1, c ∷ []), line cs)) where
  -- A message whose digits are on the line, with the SMSC's length in its first byte and the length
  -- that the answer announced behind it, is stored byte for byte when it fits the buffer, and the
  -- code is that of the answer behind it.
  pub read_pdu_lem :
      (buf_len high low pdu_len : ℕ) (status : Option ℤ) (smsc : ℕ) (bytes rest : Text)
      → AllBytes (smsc ∷ bytes)
      → length bytes ≡ smsc + pdu_len
      → length bytes < buf_len
      → buf_len < 2 ^ 16
      → let (retcode, s) = process serial (wait_0 serial 9000 true true) (line rest) in
        read_pdu serial buf_len high low pdu_len status (line (hex_text (smsc ∷ bytes) ++ rest)) ≡ (
          (
            retcode,
            record {
              stored = smsc ∷ bytes;
              msg_len = some (length (smsc ∷ bytes));
              status = status;
            },
          ),
          s,
        )
  read_pdu_lem buf_len high low pdu_len status smsc bytes rest all len fits small =
      let (s, same, e) =
        read_pdu-Line serial (λ text s. s ≡ line text)
          (λ c cs s on. rw (on, reads c cs) (refl, refl)) buf_len high low pdu_len status smsc bytes
          rest _ all len fits small refl in
      rw same at e

module _ {S F : Type 0} (serial : ModemSerial S F) where
  push_bound :
      (byte : Option ℕ) (left : ℕ) (rest : Cmd S (Text × Bool))
      → ((s : S) → length (rest s).0.0 ≤ left)
      → (s : S) → length (push_byte serial byte rest s).0.0 ≤ suc left
  unfolding push_byte
  push_bound none left rest bound s = omega arith
  push_bound (some b) left rest bound s = omega (arith, bound s)

  pairs_bound : (high low left : ℕ) (s : S) → length (read_pairs serial high low left s).0.0 ≤ left
  unfolding read_pairs
  pairs_bound high low zero s = omega arith
  pairs_bound high low (suc left) s =
      let ((byte, high', low'), s') = read_pair serial high low s in
      push_bound byte left (read_pairs serial high' low' left) (pairs_bound high' low' left) s'

  abbrev pub stored_by : {A : Type 0} → (A × SmsRead) × S → Text
  stored_by r = r.0.1.stored

  rest_bound :
      (buf_len smsc high low msg_len : ℕ) (status : Option ℤ) (s : S)
      → 0 < buf_len
      → length (stored_by (read_rest serial buf_len smsc high low msg_len status s)) ≤ buf_len
  unfolding read_rest
  rest_bound buf_len smsc high low msg_len status s h = elim (Bool-cases (ltb buf_len msg_len)) [
    | inl over ↦ rw over (omega arith)
    | inr fits ↦ rw fits (ground (arith, pairs_bound high low (msg_len - 1) s))
  ]

  first_bound :
      (buf_len : ℕ) (byte : Option ℕ) (high low pdu_len : ℕ) (status : Option ℤ) (s : S)
      → 0 < buf_len
      → length (stored_by (read_first serial buf_len byte high low pdu_len status s)) ≤ buf_len
  unfolding read_first
  first_bound buf_len none high low pdu_len status s h = omega arith
  first_bound buf_len (some smsc) high low pdu_len status s h =
      rest_bound buf_len smsc high low ((smsc + 1 + pdu_len) % 2 ^ 16) status s h

  switch_bound :
      (buf_len high low : ℕ) (want_status : Bool) (rsp : Response) (s : S)
      → 0 < buf_len
      → length (stored_by (read_switch serial buf_len high low want_status rsp s)) ≤ buf_len
  unfolding read_switch read_pdu
  switch_bound buf_len high low want_status Response.match_1st s h =
      first_bound buf_len _ _ _ _ _ _ h
  switch_bound buf_len high low want_status Response.ok s h = omega arith
  switch_bound buf_len high low want_status Response.match_2nd s h = omega arith
  switch_bound buf_len high low want_status Response.match_3rd s h = omega arith
  switch_bound buf_len high low want_status Response.error s h = omega arith
  switch_bound buf_len high low want_status Response.timeout s h = omega arith

  -- Whatever the module answers, read stores no more bytes than the caller's buffer holds.
  pub read_bound :
      (given : Bool) (buf_len high low : ℕ) (want_status : Bool) (index : ℕ) (s : S)
      → length (stored_by (read serial given buf_len high low want_status index s)) ≤ buf_len
  unfolding read
  read_bound given buf_len high low want_status index s =
      elim (Bool-cases (not given || (buf_len == 0))) [
        | inl refused ↦ rw refused (omega arith)
        | inr accepted ↦
            rw accepted (elim (Bool-cases (is_zero (set_message_format serial 0 s).0)) [
              | inl pdu_mode ↦
                  rw pdu_mode (switch_bound buf_len high low want_status _ _ (ground arith))
              | inr failed ↦ rw failed (omega arith)
            ])
      ]

  with_message_bound :
      (message : SmsPosition) (rest : Option (List SmsPosition)) (n : ℕ)
      → (l : List SmsPosition) × (rest ≡ some l) × (length l + 1 ≤ n)
      → (l : List SmsPosition) × (with_message serial message rest ≡ some l) × (length l ≤ n)
  unfolding with_message
  with_message_bound message rest n (l, e, h) = rw e (message ∷ l, refl, omega arith)

  loop_bound :
      (positions_len fuel found_msg : ℕ) (s : S)
      → found_msg < positions_len
      → positions_len < 256
      → positions_len ≤ found_msg + fuel
      → (l : List SmsPosition) × ((list_loop serial positions_len fuel found_msg s).0 ≡ some l)
        × (length l ≤ positions_len - found_msg)
  unfolding list_loop
  loop_bound positions_len zero found_msg s h small enough = absurd (omega arith)
  loop_bound positions_len (suc fuel) found_msg s h small enough =
      let answer = wait_1 serial (codes "+CMGL: ") 9000 true true s in
      let (message, s') = position serial answer.1 in
      let wraps : (found_msg + 1) % 256 ≡ found_msg + 1 = omega arith in
      elim (Bool-cases (is_match_1st answer.0)) [
        | inl matched ↦ elim (Bool-cases ((found_msg + 1) == positions_len)) [
          | inl filled ↦
              rw (wraps, matched, filled)
                (with_message_bound message (some []) _ ([], refl, omega arith))
          | inr room ↦
              let (l, e, le) =
                loop_bound positions_len fuel (found_msg + 1) s' (ground arith) small
                  (omega arith) in
              rw (wraps, matched, room) (with_message_bound message _ _ (l, e, ground arith))
        ]
        | inr last ↦ rw last ([], refl, omega arith)
      ]

  -- Whatever the module answers, list returns, and stores no more messages than the caller's array,
  -- of up to 255, holds.
  pub list_bound :
      (given : Bool) (positions_len status_filter : ℕ) (s : S)
      → positions_len < 256
      → (l : List SmsPosition) × ((list serial given positions_len status_filter s).0 ≡ some l)
        × (length l ≤ positions_len)
  unfolding list
  list_bound given positions_len status_filter s small =
      elim (Bool-cases ((positions_len == 0) || not given)) [
        | inl refused ↦ rw refused ([], refl, omega arith)
        | inr accepted ↦
            rw accepted (elim (Bool-cases (is_zero (set_message_format serial 0 s).0)) [
              | inl pdu_mode ↦
                  let (l, e, le) =
                    loop_bound positions_len 256 0
                      (send_cmd serial (txt "AT+CMGL=" ∷ Item.u16 status_filter ∷ [])
                        (set_message_format serial 0 s).1).1
                      (ground arith) small (omega arith) in
                  rw pdu_mode (l, e, omega arith)
              | inr failed ↦ rw failed ([], refl, omega arith)
            ])
      ]
