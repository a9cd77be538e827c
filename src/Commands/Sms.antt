-- ===== src/Commands/Sms.antt =====
-- src/commands/sms.h: the storage and its messages.
pub mod Read
pub mod Send
use a76xx.Prelude.{
  ℕ, ◌+◌, ◌-◌, ◌%◌, ◌^◌, zero, suc, ltb, ◌==◌, if◌then◌else◌, Bool, true, false, not, ◌&&◌, ◌||◌,
  Option, none, some, List, [], ◌∷◌, length, get_or, codes,
}
use a76xx.Prelude.Int.{ℤ, pos, uint8, uint16, is_zero}
use a76xx.Serial.{
  Text, Response, Item, ModemSerial, Cmd, ◌>>=◌, ◌>>◌, pure, timed_out, generic_error,
  out_of_memory, response_process, txt, num, send_cmd, print, wait_2, wait_1, wait_0, wait_ok,
  process,
}
use a76xx.SmsCoding.{hex_pair_to_byte, byte_to_hex_pair, check_hex_dec}

-- SMSPosition_t; the status is the number that the enumerator has.
pub record SmsPosition : Type 0 where
  pub index : ℕ
  pub status : ℤ
  pub len : ℕ

-- What `read` leaves: the bytes stored from the start of the buffer, `*msgLen` and `*msgStatus`,
-- `none` where they are left as they were.
pub record SmsRead : Type 0 where
  pub stored : Text
  pub msg_len : Option ℕ
  pub status : Option ℤ

unfoldable pub is_match_1st : Response → Bool
is_match_1st Response.match_1st = true
is_match_1st _ = false

module _ {S F : Type 0} (serial : ModemSerial S F) where
  unfoldable pub storage_switch : Response → Cmd S ℤ
  storage_switch Response.match_1st = do serial.find b'\n'; process serial (wait_ok serial)
  storage_switch Response.timeout = pure timed_out
  storage_switch _ = pure generic_error

  unfoldable pub set_storage : Cmd S ℤ
  set_storage = do
    send_cmd serial (txt "AT+CPMS" ∷ [])
    rsp ← wait_1 serial (codes "+CPMS: ") 9000 false true
    storage_switch rsp

  -- `SMS_PDU_MODE` is 0 and `SMS_TEXT_MODE` is 1.
  unfoldable pub set_message_format : ℕ → Cmd S ℤ
  set_message_format msg_format = do
    send_cmd serial (txt "AT+CMGF=" ∷ Item.u16 msg_format ∷ [])
    process serial (wait_0 serial 9000 true true)

  unfoldable pub set_text_mode_param : ℕ → ℕ → ℕ → ℕ → Cmd S ℤ
  set_text_mode_param fo vp pid dcs = do
    send_cmd serial (
        txt "AT+CSMP="
        ∷ num fo
        ∷ Item.chr b','
        ∷ num vp
        ∷ Item.chr b','
        ∷ num pid
        ∷ Item.chr b','
        ∷ num dcs
        ∷ [])
    process serial (wait_1 serial (codes "+CMS ERROR: ") 9000 true true)

  unfoldable pub set_notification : Cmd S ℤ
  set_notification = do
    send_cmd serial (txt "AT+CNMI" ∷ [])
    process serial (wait_0 serial 9000 true true)

  -- One message of the list, behind the match.
  unfoldable pub position : Cmd S SmsPosition
  position = do
    index ← serial.parse_int
    serial.find b','
    status ← serial.parse_int
    serial.find b','
    serial.find b','
    len ← serial.parse_int
    serial.find b'\n'
    serial.find b'\n'
    pure (record { index = uint8 index; status = status; len = uint16 len })

  -- The messages behind one that has been stored, when there are any.
  unfoldable pub with_message : SmsPosition → Option (List SmsPosition) → Option (List SmsPosition)
  with_message message none = none
  with_message message (some rest) = some (message ∷ rest)

  -- `while (1)`, on fuel, with the number `found_msg` of messages stored so far: the messages that it
  -- stores from there on, `none` when the fuel runs out.
  unfoldable pub list_loop : ℕ → ℕ → ℕ → Cmd S (Option (List SmsPosition))
  unfolding with_message
  list_loop positions_len zero found_msg = pure none
  list_loop positions_len (suc fuel) found_msg =
      let count = (found_msg + 1) % 256 in
      let more = list_loop positions_len fuel count in
      do
        rsp ← wait_1 serial (codes "+CMGL: ") 9000 true true
        if is_match_1st rsp
            then (do
              message ← position
              rest ←
                  if count == positions_len
                  then (do wait_0 serial 9000 true true; pure (some []))
                  else more
              pure (with_message message rest))
            else pure (some [])

  -- The messages stored; their number is returned. `given` is whether the array is not null. As many
  -- rounds as the 256 values of `foundMsg`, an `uint8_t`, are allowed for the loop.
  unfoldable pub list : Bool → ℕ → ℕ → Cmd S (Option (List SmsPosition))
  list given positions_len status_filter =
      if (positions_len == 0) || not given then pure (some []) else do
        retcode ← set_message_format 0
        if is_zero retcode
            then (do
              send_cmd serial (txt "AT+CMGL=" ∷ Item.u16 status_filter ∷ [])
              list_loop positions_len 256 0)
            else pure (some [])

  -- `readBytes(&c, 1)`: the character keeps its value when none arrives.
  unfoldable pub read_char : ℕ → Cmd S ℕ
  read_char old = do (read_len, chars) ← serial.read_bytes (pos 1); pure (get_or chars 0 old)

  -- One byte of the message from two characters, `none` when they are not hexadecimal digits, and
  -- the values of `high` and `low`.
  unfoldable pub read_pair : ℕ → ℕ → Cmd S (Option ℕ × ℕ × ℕ)
  read_pair high low = do
    high' ← read_char high
    low' ← read_char low
    pure (
      (if check_hex_dec high' && check_hex_dec low'
          then some (hex_pair_to_byte high' low')
          else none),
      high',
      low',
    )

  -- What is done with a byte, in front of the remaining ones: it is stored, or the loop is left by an
  -- error.
  unfoldable pub push_byte : Option ℕ → Cmd S (Text × Bool) → Cmd S (Text × Bool)
  push_byte none rest = pure ([], false)
  push_byte (some b) rest = do (bytes, complete) ← rest; pure (b ∷ bytes, complete)

  -- The loop over the remaining bytes: what it stores, and whether all were digits.
  unfoldable pub read_pairs : ℕ → ℕ → ℕ → Cmd S (Text × Bool)
  read_pairs high low zero = pure ([], true)
  read_pairs high low (suc left) = do
    (byte, high', low') ← read_pair high low
    push_byte byte (read_pairs high' low' left)

  -- The answer behind the message.
  unfoldable pub read_end : Bool → Cmd S ℤ
  read_end true = process serial (wait_0 serial 9000 true true)
  read_end false = pure generic_error

  -- What follows the first byte, the length of the SMSC.
  unfoldable pub read_rest : ℕ → ℕ → ℕ → ℕ → ℕ → Option ℤ → Cmd S (ℤ × SmsRead)
  read_rest buf_len smsc high low msg_len status =
      if ltb buf_len msg_len
      then pure
          (out_of_memory, record { stored = smsc ∷ []; msg_len = some msg_len; status = status })
      else do
        (bytes, complete) ← read_pairs high low (msg_len - 1)
        retcode ← read_end complete
        pure (retcode, record { stored = smsc ∷ bytes; msg_len = some msg_len; status = status })

  unfoldable pub read_first : ℕ → Option ℕ → ℕ → ℕ → ℕ → Option ℤ → Cmd S (ℤ × SmsRead)
  read_first buf_len none high low pdu_len status =
      pure (generic_error, record { stored = []; msg_len = none; status = status })
  read_first buf_len (some smsc) high low pdu_len status =
      read_rest buf_len smsc high low ((smsc + 1 + pdu_len) % 2 ^ 16) status

  -- The end of `read`, from the length on.
  unfoldable pub read_pdu : ℕ → ℕ → ℕ → ℕ → Option ℤ → Cmd S (ℤ × SmsRead)
  read_pdu buf_len high low pdu_len status = do
    (byte, high', low') ← read_pair high low
    read_first buf_len byte high' low' pdu_len status

  unfoldable pub read_status : Bool → Cmd S (Option ℤ)
  read_status true = do status ← serial.parse_int; pure (some status)
  read_status false = pure none

  unfoldable pub read_switch : ℕ → ℕ → ℕ → Bool → Response → Cmd S (ℤ × SmsRead)
  read_switch buf_len high low want_status Response.match_1st = do
    status ← read_status want_status
    serial.find b','
    serial.find b','
    pdu_len ← serial.parse_int
    serial.find b'\n'
    read_pdu buf_len high low (uint16 pdu_len) status
  read_switch buf_len high low want_status _ =
      pure (generic_error, record { stored = []; msg_len = none; status = none })

  -- `given` is whether neither the buffer nor `msgLen` is null, `want_status` whether `msgStatus` is
  -- not; `high` and `low` are what the two uninitialised variables hold.
  unfoldable pub read : Bool → ℕ → ℕ → ℕ → Bool → ℕ → Cmd S (ℤ × SmsRead)
  read given buf_len high low want_status index =
      if not given || (buf_len == 0)
      then pure (out_of_memory, record { stored = []; msg_len = none; status = none })
      else do
        retcode ← set_message_format 0
        if is_zero retcode
            then (do
              send_cmd serial (txt "AT+CMGR=" ∷ num index ∷ [])
              rsp ← wait_2 serial (codes "+CMGR: ") (codes "+CMS ERROR: ") 9000 true true
              read_switch buf_len high low want_status rsp)
            else pure (generic_error, record { stored = []; msg_len = none; status = none })

  -- The two characters of every byte.
  unfoldable pub print_pairs : Text → Cmd S Unit
  print_pairs [] = pure tt
  print_pairs (b ∷ bytes) = do
    let (high_byte, low_byte) = byte_to_hex_pair b in
        print serial (Item.chr high_byte ∷ Item.chr low_byte ∷ [])
    print_pairs bytes

  unfoldable pub send_switch : Response → Cmd S ℤ
  send_switch Response.match_1st = process serial (wait_0 serial 40000 true true)
  send_switch rsp = pure (response_process rsp)

  -- The PDU is the list of its `length` bytes, `none` for a null pointer.
  unfoldable pub send : Option Text → Cmd S ℤ
  send none = pure generic_error
  send (some []) = pure generic_error
  send (some (b ∷ bytes)) = do
    retcode ← set_message_format 0
    if is_zero retcode
        then (do
          send_cmd serial (txt "AT+CMGS=" ∷ Item.int (pos (length bytes)) ∷ [])
          serial.find b'>'
          print_pairs (b ∷ bytes)
          send_cmd serial (Item.chr 0x1A ∷ [])
          rsp ← wait_2 serial (codes "+CMGS: ") (codes "+CMS ERROR: ") 40000 true true
          send_switch rsp)
        else pure retcode

  unfoldable pub remove : ℕ → ℕ → Cmd S ℤ
  remove index delflag = do
    send_cmd serial (txt "AT+CMGD=" ∷ num index ∷ Item.chr b',' ∷ num delflag ∷ [])
    process serial (wait_1 serial (codes "+CMS ERROR: ") 9000 true true)
