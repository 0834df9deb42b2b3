-- ===== src/Email.antt =====
-- The codes that are sent to an address to verify it
-- (backend/src/email/email-verification.service.ts, and the route of email.controller.ts that counts
-- failed attempts).
pub mod Service
pub mod Codes
pub mod Runs
mod Tests
