-- ===== src/Ems.antt =====
-- api/ems: the energy-management controller and its pure decision functions.
pub mod Decide
pub mod Watchdog
pub mod Curtail
pub mod Tick
pub mod Shaving
pub mod GridLimit
pub mod Refresh
pub mod Tariff
pub mod Tests
pub mod TickTests
pub mod TariffTests
