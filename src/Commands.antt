-- ===== src/Commands.antt =====
-- src/commands: the AT commands, one function per method of the command classes, over any serial
-- interface. The result of a method with an output parameter carries it as an `Option`, `none` where
-- the parameter is left as it was.
pub mod V25ter
pub mod StatusControl
pub mod Network
pub mod PacketDomain
pub mod Sim
pub mod SerialInterface
pub mod InternetService
pub mod Http
pub mod Mqtt
pub mod Ssl
pub mod Sms
pub mod Gnss
mod Tests
