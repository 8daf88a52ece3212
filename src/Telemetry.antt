-- ===== src/Telemetry.antt =====
-- What the two telemetry stores share (api/telemetry).
pub mod Merge
mod Tests
