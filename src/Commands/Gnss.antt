-- ===== src/Commands/Gnss.antt =====
-- src/commands/gnss.h: the receiver and its positions.
pub mod Mask
use a76xx.Prelude.{
  ℕ, ◌/◌, ◌^◌, copy_at, take, if◌then◌else◌, Bool, true, false, not, List, [], ◌∷◌, length, set,
  bit_and, codes,
}
use a76xx.Prelude.Int.{ℤ, pos, int32, uint8, eq_ℤ}
use a76xx.Serial.{
  Text, Response, Item, ModemSerial, Cmd, ◌>>=◌, ◌>>◌, pure, succeeded, timed_out, generic_error,
  gnss_generic_error, txt, num, flag, comma, send_cmd, wait_1, wait_0, clear, process, on_match,
  return_code,
}

-- GNSSInfo_t; the two arrays without their terminating null character, which no method changes
-- for this type.
pub record GnssInfo (F : Type 0) : Type 0 where
  pub hasfix : Bool
  pub mode : ℤ
  pub gps_svs : ℤ
  pub glonass_svs : ℤ
  pub beidou_svs : ℤ
  pub lat : F
  pub ns : ℕ
  pub lon : F
  pub ew : ℕ
  pub date : Text
  pub utc_time : Text
  pub alt : F
  pub speed : F
  pub course : F
  pub pdop : F
  pub hdop : F
  pub vdop : F

-- GPSInfo_t; the arrays with their terminating null character.
pub record GpsInfo (F : Type 0) : Type 0 where
  pub hasfix : Bool
  pub lat : F
  pub ns : ℕ
  pub lon : F
  pub ew : ℕ
  pub date : Text
  pub utc_time : Text
  pub alt : F
  pub speed : F
  pub course : F

-- GPSStart_t
pub data GpsStart : Type 0 where
  cold warm hot : GpsStart

unfoldable pub start_command : GpsStart → Item
start_command GpsStart.cold = txt "AT+CGPSCOLD"
start_command GpsStart.warm = txt "AT+CGPSWARM"
start_command GpsStart.hot = txt "AT+CGPSHOT"

unfoldable pub end_code : Response → ℤ → ℤ
end_code Response.ok failed = succeeded
end_code _ failed = failed

-- The mask's bits, from the lowest.
unfoldable pub nmea_items : ℕ → List Item
nmea_items nmea_mask =
    txt "AT+CGNSSNMEA="
    ∷ num (bit_and nmea_mask 0x01)
    ∷ comma
    ∷ num (bit_and nmea_mask 0x02 / 2 ^ 1)
    ∷ comma
    ∷ num (bit_and nmea_mask 0x04 / 2 ^ 2)
    ∷ comma
    ∷ num (bit_and nmea_mask 0x08 / 2 ^ 3)
    ∷ comma
    ∷ num (bit_and nmea_mask 0x10 / 2 ^ 4)
    ∷ comma
    ∷ num (bit_and nmea_mask 0x20 / 2 ^ 5)
    ∷ comma
    ∷ num (bit_and nmea_mask 0x40 / 2 ^ 6)
    ∷ comma
    ∷ num (bit_and nmea_mask 0x80 / 2 ^ 7)
    ∷ []

module _ {S F : Type 0} (serial : ModemSerial S F) where
  unfoldable pub power_switch : Response → ℤ
  power_switch Response.match_1st = succeeded
  power_switch Response.ok = succeeded
  power_switch Response.timeout = timed_out
  power_switch _ = generic_error

  unfoldable pub power_control : Bool → Cmd S ℤ
  power_control enable_gnss = do
    send_cmd serial (txt "AT+CGNSSPWR=" ∷ num (if enable_gnss then 1 else 0) ∷ [])
    rsp ← wait_1 serial (codes "+CGNSSPWR: READY!") 9000 (not enable_gnss) true
    pure (power_switch rsp)

  unfoldable pub start : GpsStart → Cmd S ℤ
  start how = do
    send_cmd serial (start_command how ∷ [])
    process serial (wait_0 serial 9000 true true)

  unfoldable pub set_uart3_baud_rate : ℕ → Cmd S ℤ
  set_uart3_baud_rate baud_rate = do
    send_cmd serial (txt "AT+CGNSSIPR=" ∷ Item.unsigned_int baud_rate ∷ [])
    process serial (wait_0 serial 9000 true true)

  unfoldable pub set_support_mode : ℕ → Cmd S ℤ
  set_support_mode mode = do
    send_cmd serial (txt "AT+CGNSSMODE=" ∷ num mode ∷ [])
    process serial (wait_0 serial 9000 true true)

  unfoldable pub set_nmea_sentence : ℕ → Cmd S ℤ
  set_nmea_sentence nmea_mask = do
    send_cmd serial (nmea_items nmea_mask)
    process serial (wait_0 serial 9000 true true)

  unfoldable pub set_nmea_rate : ℕ → Cmd S ℤ
  set_nmea_rate nmea_rate = do
    send_cmd serial (txt "AT+CGPSNMEARATE=" ∷ num nmea_rate ∷ [])
    process serial (wait_0 serial 9000 true true)

  unfoldable pub start_test_mode : Cmd S ℤ
  start_test_mode = do
    send_cmd serial (txt "AT+CGPSFTM=1" ∷ [])
    process serial (wait_0 serial 9000 true true)

  unfoldable pub stop_test_mode : Cmd S ℤ
  stop_test_mode = do
    send_cmd serial (txt "AT+CGPSFTM=0" ∷ [])
    process serial (wait_0 serial 9000 true true)

  -- A number behind which the comma is searched.
  unfoldable pub int_field : Cmd S ℤ
  int_field = do value ← serial.parse_int; serial.find b','; pure (int32 value)

  unfoldable pub float_field : Cmd S F
  float_field = do value ← serial.parse_float; serial.find b','; pure value

  unfoldable pub char_field : Cmd S ℕ
  char_field = do value ← serial.read; serial.find b','; pure (uint8 value)

  -- `readBytes` over the start of an array.
  unfoldable pub text_field : Text → ℕ → Cmd S Text
  text_field old len = do
    (read_len, value) ← serial.read_bytes (pos len)
    serial.find b','
    pure (copy_at old 0 value)

  unfoldable pub gnss_fix : GnssInfo F → Cmd S (GnssInfo F)
  gnss_fix info = do
    mode ← int_field
    gps_svs ← int_field
    glonass_svs ← int_field
    beidou_svs ← int_field
    lat ← float_field
    ns ← char_field
    lon ← float_field
    ew ← char_field
    date ← text_field info.date 6
    utc_time ← text_field info.utc_time 9
    alt ← float_field
    speed ← float_field
    course ← float_field
    pdop ← float_field
    hdop ← float_field
    vdop ← serial.parse_float
    pure (record {
      hasfix = true;
      mode = mode;
      gps_svs = gps_svs;
      glonass_svs = glonass_svs;
      beidou_svs = beidou_svs;
      lat = lat;
      ns = ns;
      lon = lon;
      ew = ew;
      date = date;
      utc_time = utc_time;
      alt = alt;
      speed = speed;
      course = course;
      pdop = pdop;
      hdop = hdop;
      vdop = vdop;
    })

  unfoldable pub gnss_switch : GnssInfo F → Response → Cmd S (ℤ × GnssInfo F)
  gnss_switch info Response.match_1st = do
    c ← serial.peek
    info' ← (if eq_ℤ c (pos b' ') then pure (record info { hasfix = false }) else gnss_fix info)
    rsp ← wait_0 serial 9000 true true
    pure (end_code rsp generic_error, info')
  gnss_switch info Response.timeout = pure (timed_out, info)
  gnss_switch info _ = pure (generic_error, info)

  unfoldable pub get_gnss_info : GnssInfo F → Cmd S (ℤ × GnssInfo F)
  get_gnss_info info = do
    send_cmd serial (txt "AT+CGNSSINFO" ∷ [])
    rsp ← wait_1 serial (codes "+CGNSSINFO:") 9000 false true
    gnss_switch info rsp

  -- A field that is read unless the stream stands at the character `stop`, and what it gets then.
  unfoldable pub unless_at : {A : Type 0} → ℕ → Cmd S A → A → Cmd S A
  unless_at stop field default_value = do
    c ← serial.peek
    if eq_ℤ c (pos stop) then pure default_value else field

  -- A field of the position and the comma behind it.
  unfoldable pub optional_field : {A : Type 0} → Cmd S A → A → Cmd S A
  optional_field field default_value = do
    value ← unless_at b',' field default_value
    serial.find b','
    pure value

  unfoldable pub char_read : Cmd S ℕ
  char_read = do value ← serial.read; pure (uint8 value)

  unfoldable pub text_read : Text → ℕ → Cmd S Text
  text_read old len = do (read_len, value) ← serial.read_bytes (pos len); pure (copy_at old 0 value)

  -- The arithmetic of floating point numbers: `parseFloat() / 60.0f + strtof(degreesBuf, NULL)` and
  -- `0.0f`. What `degreesBuf` holds before it is written is `degrees`.
  module _ (plus_minutes : F → Text → F) (zero_float : F) (degrees : Text) where
    unfoldable pub degrees_read : Text → ℕ → Cmd S (F × Text)
    degrees_read old len = do
      (read_len, digits) ← serial.read_bytes (pos len)
      let buffer = take len (copy_at old 0 digits) in
          do minutes ← serial.parse_float; pure (plus_minutes minutes buffer, copy_at old 0 digits)

    unfoldable pub gps_fix : GpsInfo F → Cmd S (GpsInfo F)
    gps_fix info = do
      (lat, degrees') ← optional_field (degrees_read degrees 2) (zero_float, degrees)
      ns ← optional_field char_read b'N'
      (lon, _) ← optional_field (degrees_read degrees' 3) (zero_float, degrees')
      ew ← optional_field char_read b'E'
      date ← optional_field (text_read info.date 6) (set info.date 0 0)
      utc_time ← optional_field (text_read info.utc_time 9) (set info.utc_time 0 0)
      alt ← optional_field serial.parse_float zero_float
      speed ← optional_field serial.parse_float zero_float
      course ← unless_at b'\r' serial.parse_float zero_float
      pure (record {
        hasfix = true;
        lat = lat;
        ns = ns;
        lon = lon;
        ew = ew;
        date = date;
        utc_time = utc_time;
        alt = alt;
        speed = speed;
        course = course;
      })

    unfoldable pub gps_switch : GpsInfo F → Response → Cmd S (ℤ × GpsInfo F)
    gps_switch info Response.match_1st = do
      c ← serial.peek
      info' ← (if eq_ℤ c (pos b',') then pure (record info { hasfix = false }) else gps_fix info)
      rsp ← wait_0 serial 9000 true true
      pure (end_code rsp gnss_generic_error, info')
    gps_switch info Response.timeout = pure (timed_out, info)
    gps_switch info _ = pure (generic_error, info)

    unfoldable pub get_gps_info : GpsInfo F → Cmd S (ℤ × GpsInfo F)
    get_gps_info info = do
      send_cmd serial (txt "AT+CGPSINFO" ∷ [])
      rsp ← wait_1 serial (codes "+CGPSINFO: ") 9000 false true
      gps_switch info rsp

  unfoldable pub send_gnss_command : Text → Cmd S ℤ
  send_gnss_command cmd = do
    send_cmd serial (txt "AT+CGNSSCMD=0," ∷ txt "\"" ∷ Item.str cmd ∷ txt "\"" ∷ [])
    process serial (wait_0 serial 9000 true true)

  unfoldable pub enable_nmea_output : Bool → Cmd S ℤ
  enable_nmea_output enabled = do
    send_cmd serial (txt "AT+CGNSSTST=" ∷ flag enabled ∷ [])
    process serial (wait_0 serial 9000 true true)

  unfoldable pub select_output_port : Bool → Bool → Cmd S ℤ
  select_output_port output_parsed_data output_nmea_data = do
    send_cmd serial
        (txt "AT+CGNSSPORTSWITCH=" ∷ flag output_parsed_data ∷ comma ∷ flag output_nmea_data ∷ [])
    process serial (wait_0 serial 9000 true true)

  unfoldable pub agps_answer : Cmd S ℤ
  agps_answer = do
    c ← serial.peek
    if eq_ℤ c (pos b's') then (do clear serial 500; pure succeeded) else return_code serial

  unfoldable pub get_agps_data : Cmd S ℤ
  get_agps_data = do
    send_cmd serial (txt "AT+CAGPS" ∷ [])
    rsp ← wait_1 serial (codes "+AGPS: ") 9000 false true
    on_match serial agps_answer rsp

  -- `readBytesUntil` over the start of the buffer `info`.
  unfoldable pub product_switch : Text → Response → Cmd S (ℤ × Text)
  product_switch info Response.match_1st = do
    (read_len, text) ← serial.read_bytes_until b'\r' (int32 (pos (length info)))
    clear serial 500
    pure (succeeded, copy_at info 0 text)
  product_switch info Response.timeout = pure (timed_out, info)
  product_switch info _ = pure (generic_error, info)

  unfoldable pub get_gps_product_info : Text → Cmd S (ℤ × Text)
  get_gps_product_info info = do
    send_cmd serial (txt "AT+CGNSSPROD" ∷ [])
    rsp ← wait_1 serial (codes "PRODUCT: ") 9000 false true
    product_switch info rsp
