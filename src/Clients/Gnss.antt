-- ===== src/Clients/Gnss.antt =====
-- src/clients/gnss.h: the GNSS client. The queue of NMEA messages is the vendored CircularBuffer, a
-- parameter.
pub mod Stream
use a76xx.Prelude.{
  ℕ, zero, suc, ◌-◌, Bool, true, false, Option, none, some, List, [], ◌∷◌, ◌==◌, if◌then◌else◌,
  length, set, copy_at,
}
use a76xx.Prelude.Int.{ℤ, is_zero, uint8}
use a76xx.Prelude.Loop.{Step, loop}
use a76xx.Serial.{Text, ModemSerial, Cmd, pure}
use a76xx.Serial.Handlers.{Handlers, register_event_handler, de_register_event_handler}
use a76xx.Clients.{Session, assert_bool}
use a76xx.Commands.Gnss.{get_gnss_info as gnss_info_cmd, get_gps_info as gps_info_cmd}
use a76xx.Commands.Gnss.{
  GpsStart, GnssInfo, GpsInfo, power_control, set_uart3_baud_rate, set_support_mode, start,
  select_output_port, enable_nmea_output, set_nmea_sentence, set_nmea_rate, get_agps_data,
}

-- What the client uses of CircularBuffer.
pub record Queue (Q : Type 0) : Type 0 where
  pub push : Text → Q → Q
  pub size : Q → ℕ
  pub shift : Q → Text × Q
  pub clear : Q → Q

-- The session, the table of event handlers of the serial interface, and `_nmea_queue`.
pub record GnssClient (S Q : Type 0) : Type 0 where
  pub session : Session S
  pub handlers : Handlers
  pub nmea_queue : Q

abbrev pub nmea_message_size : ℕ
nmea_message_size = 100

module _ {S F : Type 0} (serial : ModemSerial S F) where
  unfoldable pub enable_gnss : GpsStart → ℕ → ℕ → Cmd (Session S) Bool
  enable_gnss start_mode mode baud_rate = assert_bool (power_control serial true) (
      assert_bool (set_uart3_baud_rate serial baud_rate) (
        assert_bool (set_support_mode serial mode)
          (assert_bool (start serial start_mode) (pure true))))

  unfoldable pub disable_gnss : Cmd (Session S) Bool
  disable_gnss = assert_bool (power_control serial false) (pure true)

  unfoldable pub get_agps : Cmd (Session S) Bool
  get_agps = assert_bool (get_agps_data serial) (pure true)

  -- A command that fills a record, with the macro: the record, and whether it succeeded.
  unfoldable pub assert_info : {A : Type 0} → Cmd S (ℤ × A) → Cmd (Session S) (Bool × A)
  assert_info m c =
      let ((retcode, info), s) = m c.port in
      if is_zero retcode
      then ((true, info), record { last_error = c.last_error; port = s })
      else ((false, info), record { last_error = retcode; port = s })

  unfoldable pub get_gnss_info : GnssInfo F → Cmd (Session S) (Bool × GnssInfo F)
  unfolding assert_info
  get_gnss_info info = assert_info (gnss_info_cmd serial info)

  -- With the arithmetic of floating point numbers that the command takes.
  unfoldable pub get_gps_info :
      (F → Text → F) → F → Text → GpsInfo F → Cmd (Session S) (Bool × GpsInfo F)
  unfolding assert_info
  get_gps_info plus_minutes zero_float degrees info =
      assert_info (gps_info_cmd serial plus_minutes zero_float degrees info)

  -- `while (serial->available() == 0) {}`
  unfoldable pub poll : S → Step S S
  poll s = let (n, s') = serial.available s in if n == 0 then Step.again s' else Step.stop s'

  -- A character has come, or the polls are used up.
  unfoldable pub put_char : ℕ → Text → (Text → Cmd S (Option Text)) → Option S → S → Option Text × S
  put_char i payload rest none s = (none, s)
  put_char i payload rest (some s') s =
      let (c, s1) = serial.read s' in
      let (lf, s2) = serial.read s1 in
      let char = uint8 c in
      if char == 13 then (some (set payload i 0), s2) else rest (set payload i char) s1

  -- The loop of `process` from index `i` on, with `left` characters of room, and `polls` polls for
  -- each character.
  unfoldable pub nmea_loop : ℕ → ℕ → ℕ → Text → Cmd S (Option Text)
  unfolding put_char poll loop
  nmea_loop polls i zero payload s = (some payload, s)
  nmea_loop polls i (suc left) payload s =
      put_char i payload (nmea_loop polls (suc i) left) (loop poll polls s) s

  -- `process`: the message that is pushed. `unset` is what the 100 bytes of the message hold at first.
  unfoldable pub nmea_message : ℕ → Text → Text → Cmd S (Option Text)
  unfolding nmea_loop
  nmea_message polls match_string unset =
      nmea_loop polls (length match_string) (nmea_message_size - length match_string)
        (copy_at unset 0 match_string)

-- The handlers are known by their addresses.
unfoldable pub register_all : List ℕ → Handlers → Handlers
register_all [] h = h
register_all (a ∷ addresses) h = register_all addresses (register_event_handler h a)

unfoldable pub de_register_all : ℕ → List ℕ → Handlers → Handlers
de_register_all junk [] h = h
de_register_all junk (a ∷ addresses) h =
    de_register_all junk addresses (de_register_event_handler junk h a)

module _ {S F Q : Type 0} (serial : ModemSerial S F) (queue : Queue Q) where
  -- A command and A76XX_CLIENT_RETCODE_ASSERT_BOOL, in front of the rest of the function.
  unfoldable pub checked : Cmd S ℤ → Cmd (GnssClient S Q) Bool → Cmd (GnssClient S Q) Bool
  checked m rest g =
      let (retcode, s) = m g.session.port in
      if is_zero retcode
      then rest (record g { session = record { last_error = g.session.last_error; port = s } })
      else (false, record g { session = record { last_error = retcode; port = s } })

  unfoldable pub push_message : Option Text → GnssClient S Q → GnssClient S Q
  push_message none g = g
  push_message (some msg) g = record g { nmea_queue = queue.push msg g.nmea_queue }

  -- GNSSOnNMEAMessage::process
  unfoldable pub process : ℕ → Text → Text → GnssClient S Q → GnssClient S Q
  unfolding push_message nmea_message
  process polls match_string unset g =
      let (msg, s) = nmea_message serial polls match_string unset g.session.port in
      push_message msg
        (record g { session = record { last_error = g.session.last_error; port = s } })

  -- The loop over `_nmea_handlers`, in front of the rest.
  unfoldable pub with_handlers :
      (Handlers → Handlers) → Cmd (GnssClient S Q) Bool → Cmd (GnssClient S Q) Bool
  with_handlers f rest g = rest (record g { handlers = f g.handlers })

  unfoldable pub enable_nmea_stream : List ℕ → ℕ → ℕ → Cmd (GnssClient S Q) Bool
  unfolding checked register_all with_handlers
  enable_nmea_stream nmea_handlers nmea_rate_hz nmea_mask =
      checked (select_output_port serial true true) (
        with_handlers (register_all nmea_handlers) (
          checked (enable_nmea_output serial true) (
            checked (set_nmea_sentence serial nmea_mask)
              (checked (set_nmea_rate serial nmea_rate_hz) (pure true)))))

  unfoldable pub nmea_available : GnssClient S Q → ℕ
  nmea_available g = queue.size g.nmea_queue

  unfoldable pub get_nmea_message : Cmd (GnssClient S Q) Text
  get_nmea_message g = let (msg, q) = queue.shift g.nmea_queue in (msg, record g { nmea_queue = q })

  unfoldable pub exhausted : Bool → Cmd (GnssClient S Q) Bool
  exhausted true g = (true, record g { nmea_queue = queue.clear g.nmea_queue })
  exhausted false g = (true, g)

  unfoldable pub disable_nmea_stream : ℕ → List ℕ → Bool → Cmd (GnssClient S Q) Bool
  unfolding checked de_register_all with_handlers exhausted
  disable_nmea_stream junk nmea_handlers exhaust =
      checked (enable_nmea_output serial false)
        (with_handlers (de_register_all junk nmea_handlers) (exhausted exhaust))
