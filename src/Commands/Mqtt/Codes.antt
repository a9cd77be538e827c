-- ===== src/Commands/Mqtt/Codes.antt =====
-- The code that setSSLContext of src/commands/mqtt.h returns for an answer of the module.
