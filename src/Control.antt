-- ===== src/Control.antt =====
-- api/control: validated setpoint writes to devices.
pub mod Types
pub mod Commands
pub mod Execute
pub mod Perform
pub mod Log
pub mod Tests
