-- ===== src/Mfa.antt =====
-- The second login step: api/lib/totp.ts and loginMfa of api/routers/auth.ts.
pub mod Pending
pub mod Totp
pub mod Login
mod Tests
