-- ===== src/Modbus.antt =====
-- api/modbus.ts: the Modbus RTU codec and the planning of read blocks.
pub mod Frame
pub mod Registers
pub mod Tests
