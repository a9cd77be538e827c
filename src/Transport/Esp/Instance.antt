-- ===== src/Transport/Esp/Instance.antt =====
-- src/modem_serial_esp.h: ModemSerialESP is an implementation of the serial interface.

use a76xx.Serial.{Text, ModemSerial}
use a76xx.Transport.Candidates.{Candidates}
use a76xx.Transport.Uart.{Uart}
use a76xx.Transport.Esp.{ModemSerialEsp, Handler, wait_response}
use a76xx.Transport.Esp.Bytes.{
  flush, write, available, peek_byte, read_char, find, read_bytes_until, read_bytes,
}
use a76xx.Transport.Esp.Print.{print_item}
use a76xx.Transport.Esp.Number.{parse_int, parse_float}

-- `handlers` are the event handlers in use, `beyond` the memory behind the buffers of printItem;
-- `strtof` is the C library's.
unfoldable pub esp_serial :
    {U F : Type 0}
    → Uart U
    → (U → Text)
    → Candidates (Handler U)
    → Text
    → (Text → F)
    → F
    → ModemSerial (ModemSerialEsp U) F
esp_serial driver incoming handlers beyond strtof zero_f = record {
  wait_response = wait_response driver incoming handlers;
  print_item = print_item driver beyond;
  available = available driver;
  parse_int = parse_int driver incoming;
  parse_float = parse_float strtof zero_f driver incoming;
  flush = flush driver;
  peek = peek_byte driver;
  read = read_char driver;
  find = find driver incoming;
  write = write driver;
  read_bytes_until = read_bytes_until driver incoming;
  read_bytes = read_bytes driver;
}
