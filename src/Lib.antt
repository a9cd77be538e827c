-- ===== src/Lib.antt =====
-- Verification of the A76XX library, a driver of SIMCom A76XX LTE modules for microcontrollers.
--
-- The program's parts. The command classes (src/commands) send AT commands over an abstract serial
-- interface (src/modem_serial.h) and read the answers. The modem (src/modem.cpp) and the clients
-- (src/clients) run sequences of commands and keep the code of the last failure. The utilities
-- (src/utils) are the ring buffer of received bytes, the codings of short messages and base64. The
-- serial interface is implemented over the UART driver of the ESP-IDF (src/modem_serial_esp.h) and over
-- a Stream of Arduino (src/modem_serial_arduino.h).
--
-- The files:
--   Prelude        shared names, Boolean tests on native numbers, C arrays as lists, signed integers
--   Ring           src/utils/byteringbuf.cpp: ByteRingBuf as a record of the buffer, the size, the
--                  head and the tail; each method a function that returns its result and the ring
--   SmsCoding      src/utils/smsCoding.cpp: hexadecimal pairs, packed septets, the GSM alphabet, BCD
--   Base64         src/utils/base64.cpp: encodeBase64; Base64/Decode a decoder by its definition
--   Serial         src/modem_serial.h and the codes of src/A76XX.h: ModemSerial as a record of
--                  operations on a state, which the commands take as a parameter; Serial/Handlers the
--                  table of event handlers; Serial/Script a scripted interface for the examples
--   Commands       src/commands: a file per command class, a function per method; a function whose
--                  name ends in _switch is the switch on the response of the method it stands above;
--                  Commands/Network/Answer the commands that ask for a status, run over the
--                  transport of the ESP-IDF on the module's answers
--   Clients        src/clients: the last error beside the state of the transport, the macro that sets
--                  it, and the secure, MQTT and HTTP clients; Clients/Steps is their specification;
--                  Clients/Sms the SMS client: the PDU that is sent, the parts of a long text
--                  (Sms/Send, Sms/Comment), and the decoding of a PDU read (Sms/Receive), with
--                  Sms/Submit a reader of the PDU that is sent, Sms/Deliver the layout of a PDU that is
--                  received, and Sms/Received the reading of a message from the line of the serial
--                  port to the arrays of the message; Clients/Gnss the GNSS client
--   Modem          src/modem.cpp: initialisation, registration, reset and power
--   Transport      src/modem_serial_esp.h: Uart is the driver as a parameter, with its laws; Esp the
--                  transport, whose loops are step functions, with Esp/Bytes, Esp/Number, Esp/Print
--                  for its methods, Esp/Instance the implementation of the serial interface, and
--                  Esp/Dialog each method as a step on the text still to come, with Esp/Send;
--                  src/modem_serial_arduino.h: Stream is the Stream and the CircularBuffer as
--                  parameters, with their laws, and Arduino the transport; Candidates is what a wait
--                  for a response is to find, for both
--
-- Bounds and fuel. size_t and uint32_t have 32 bits and wrap; uint16_t and uint8_t are taken modulo
-- their size where the code stores into one; a native number stands for each. The outer loop of
-- pack7Bit runs on fuel two above the number of characters, which its round trip shows to be enough.
-- The loops that wait on a clock are given the number of times at which it has not expired, and the
-- busy wait of the NMEA handler a number of polls; the loop of SMSCommands::list gets as many rounds
-- as its 8-bit counter has values, and returns within them. The loops of the ESP transport get fuel
-- for every byte that the line still brings, one more than their rounds, and the rule of Prelude/Loop
-- shows that they return; a result that counts as a timeout is shown to come from the clock or from a
-- read that gave no byte. The wait of the Arduino transport gets as many rounds as it has looks at the
-- clock before the time is over. All other loops are structural.
--
-- Not modelled: the dates that rest on sscanf and mktime, the vendored CircularBuffer, and the examples.
-- The UART driver, the Stream of Arduino, the CircularBuffer, the handlers of the URCs, the queue of
-- NMEA messages, floating point arithmetic and the pauses are parameters, and so is the content of
-- uninitialised memory that the code reads.
pub mod Prelude
pub mod Ring
pub mod SmsCoding
pub mod Base64
pub mod Serial
pub mod Commands
pub mod Clients
pub mod Modem
pub mod Transport
