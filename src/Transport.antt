-- ===== src/Transport.antt =====
-- src/modem_serial_esp.h and src/modem_serial_arduino.h: the transports, implementations of the serial
-- interface over the UART driver of the ESP-IDF and over Arduino's Stream, and what these give them.
pub mod Candidates
pub mod Uart
pub mod Esp
pub mod Stream
pub mod Arduino
