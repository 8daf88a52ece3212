-- ===== src/Webhooks.antt =====
-- api/webhooks: the delivery queue.
pub mod Retry
pub mod Dispatch
pub mod Tests
