-- ===== src/Leader.antt =====
-- Single-writer leases and the scoping of rows to an organization (api/lib).
pub mod Lease
pub mod OrgScope
pub mod Tests
