-- ===== src/Alarms.antt =====
-- When an alarm is raised (api/alarms) and who is told (contracts/oncall.ts).
pub mod Hysteresis
pub mod Oncall
pub mod Notify
pub mod Telegram
pub mod Tests
pub mod NotifyTests
