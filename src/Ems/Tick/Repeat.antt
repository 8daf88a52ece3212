-- ===== src/Ems/Tick/Repeat.antt =====
-- The suppression of duplicates (api/ems/controller.ts, send).
