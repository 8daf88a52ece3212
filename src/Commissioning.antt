-- ===== src/Commissioning.antt =====
-- contracts/commissioning.ts and api/commissioning: the checklist that says whether a site is
-- commissioned, and the facts that it is evaluated from.
pub mod Checklist
pub mod Facts
pub mod Tests
