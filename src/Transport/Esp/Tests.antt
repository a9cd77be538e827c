-- ===== src/Transport/Esp/Tests.antt =====
-- Runs of the transport over a line that has already received everything.
use a76xx.Prelude.{◌≡◌, ◌<◌, length, refl, true, false, arith, none, some, [], ◌∷◌, ◌++◌, codes}
use a76xx.Ring.{init, get_free, get_used, write, read, clear, ends_from, ends_with, peek, pop}
use a76xx.Serial.{Text, Response, Item}
use a76xx.Prelude.Int.{pos, negsuc}
use a76xx.Ring.Contents.{contents}
use a76xx.Transport.Uart.{read_byte}
use a76xx.Transport.Esp.Wire.{wire, wire-IsLawful, wire-IsPrompt}
use a76xx.Transport.Esp.Scan.{IsReady, init-IsReady}
use a76xx.Transport.Esp.Wait.{AllTake, Answers, wait_response_lem}
use a76xx.Transport.Esp.Bytes.Reads.{Searches, find_lem, StoresUntil, read_bytes_until_lem}
use a76xx.Transport.Esp.Bytes.Block.{Block}
use a76xx.Transport.Esp.Number.Parse.{ParsesNumber, parse_number_lem}
use a76xx.Transport.Esp.Number.Line.{AllAre, parse_int_lem, parse_int-item_bytes}
use a76xx.Transport.Esp.{modem_serial_esp, candidates, wait_response}
use a76xx.Transport.Esp.Bytes.{find, read_bytes_until}
use a76xx.Transport.Esp.Number.{strchr, int_format, parse_number, parse_int}
use a76xx.Transport.Esp.Print.{item_bytes, show_int}

abbrev line : Text
line = codes "+CMTI: \"SM\",-17,x"

parse_int_test : (parse_int wire (λ l. l) (modem_serial_esp line)).0 ≡ negsuc 16
unfolding parse_int wire modem_serial_esp read_byte get_used get_free write read clear init
parse_int_test = refl

find_test : (find wire (λ l. l) b',' (modem_serial_esp line)).1.uart ≡ codes "-17,x"
unfolding find wire modem_serial_esp read_byte get_used pop peek init
find_test = refl

wait_test :
    let r =
      wait_response wire
        (λ l. l)
        []
        (some (codes "CMTI: "))
        none
        none
        100
        true
        true
        (modem_serial_esp line) in
    (r.0 ≡ Response.match_1st) × (r.1.uart ≡ codes "\"SM\",-17,x")
unfolding wait_response wire modem_serial_esp read_byte init get_free get_used write ends_with
    ends_from clear
wait_test = (refl, refl)

until_test :
    (read_bytes_until wire (λ l. l) b':' (pos 20) (modem_serial_esp line)).0 ≡ (5, codes "+CMTI")
unfolding read_bytes_until wire modem_serial_esp read_byte get_used pop peek init
until_test = refl

-- A number of ten digits is cut, and a null character is sent in place of its last digit.
item_bytes_test :
    item_bytes (1 ∷ 2 ∷ []) (Item.unsigned_int 4294967295) ≡ codes "429496729" ++ 0 ∷ []
unfolding item_bytes
item_bytes_test = refl

no_handler : AllTake (λ l. l) []
no_handler held process h = elim h [ ]

skipped : AllAre false (codes "0123456789-") (codes "+CMTI: \"SM\",")
unfolding strchr
skipped = (
  refl,
  (refl, (refl, (refl, (refl, (refl, (refl, (refl, (refl, (refl, (refl, (refl, tt))))))))))),
)

ends : strchr (codes "0123456789") b',' ≡ false
unfolding strchr
ends = refl

written :
    (modem_serial_esp line).uart
    ≡ codes "+CMTI: \"SM\"," ++ show_int (negsuc 16) ++ b',' ∷ codes "x"
unfolding show_int modem_serial_esp
written = refl

start-IsReady : IsReady (modem_serial_esp line).buf
unfolding modem_serial_esp
start-IsReady = init-IsReady

wait_response_lem_example :
    Answers
      (λ l. l)
      wire
      (wire.ticks (modem_serial_esp line).uart).0
      (wire.to_ticks 100)
      (candidates (some (codes "CMTI: ")) none none true true)
      []
      (modem_serial_esp line)
      (wait_response wire
        (λ l. l)
        []
        (some (codes "CMTI: "))
        none
        none
        100
        true
        true
        (modem_serial_esp line))
wait_response_lem_example =
    wait_response_lem wire (λ l. l) [] (some (codes "CMTI: ")) none none 100 true true
      (modem_serial_esp line) wire-IsLawful no_handler start-IsReady

find_lem_example :
    Searches wire
      (λ l. l)
      b','
      (modem_serial_esp line)
      (find wire (λ l. l) b',' (modem_serial_esp line))
find_lem_example = find_lem wire (λ l. l) b',' (modem_serial_esp line) wire-IsLawful start-IsReady

read_bytes_until_lem_example :
    StoresUntil wire
      (λ l. l)
      b':'
      20
      (modem_serial_esp line)
      (read_bytes_until wire (λ l. l) b':' (pos 20) (modem_serial_esp line))
read_bytes_until_lem_example =
    read_bytes_until_lem wire (λ l. l) b':' (pos 20) (modem_serial_esp line) wire-IsLawful
      start-IsReady (omega arith)

parse_number_lem_example :
    ParsesNumber int_format wire
      (λ l. l)
      (modem_serial_esp line)
      (parse_number int_format wire (λ l. l) (modem_serial_esp line))
parse_number_lem_example =
    parse_number_lem int_format wire (λ l. l) (modem_serial_esp line) wire-IsLawful start-IsReady

parse_int_lem_example :
    ((parse_int wire (λ l. l) (modem_serial_esp line)).0 ≡ negsuc 16)
    × (contents (parse_int wire (λ l. l) (modem_serial_esp line)).1.buf ≡ b',' ∷ [])
    × ((parse_int wire (λ l. l) (modem_serial_esp line)).1.uart ≡ codes "x")
parse_int_lem_example =
    parse_int_lem wire (λ l. l) (modem_serial_esp line) (negsuc 16) (codes "+CMTI: \"SM\",") b','
      (codes "x") wire-IsLawful wire-IsPrompt start-IsReady (omega arith) skipped ends written

sent :
    (modem_serial_esp line).uart
    ≡ codes "+CMTI: \"SM\"," ++ item_bytes [] (Item.int (negsuc 16)) ++ b',' ∷ codes "x"
unfolding item_bytes modem_serial_esp
sent = refl

short : length (show_int (negsuc 16)) < 10
unfolding show_int
short = omega arith

parse_int-item_bytes_example :
    ((parse_int wire (λ l. l) (modem_serial_esp line)).0 ≡ negsuc 16)
    × (contents (parse_int wire (λ l. l) (modem_serial_esp line)).1.buf ≡ b',' ∷ [])
    × ((parse_int wire (λ l. l) (modem_serial_esp line)).1.uart ≡ codes "x")
parse_int-item_bytes_example =
    parse_int-item_bytes wire (λ l. l) (modem_serial_esp line) (negsuc 16) []
      (codes "+CMTI: \"SM\",") b',' (codes "x") wire-IsLawful wire-IsPrompt start-IsReady
      (omega arith) short skipped ends sent
