-- ===== src/Ota.antt =====
-- api/ota: staged firmware rollouts, the jobs that deliver them and the driver between the two.
pub mod Rollout
pub mod Jobs
pub mod Driver
pub mod Tests
pub mod JobTests
