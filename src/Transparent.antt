-- ===== src/Transparent.antt =====
-- The transparent channel (api/mqtt/c30-outstanding.ts): solicited Modbus reads and their responses.
pub mod Outstanding
pub mod Tests
