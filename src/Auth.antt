-- ===== src/Auth.antt =====
-- Login of users and of administrators (backend/src/auth/auth.service.ts and
-- backend/src/admin-auth/admin-auth.service.ts).
pub mod Libraries
pub mod Service
pub mod Admins
pub mod Sessions
pub mod LastAdmin
pub mod Accounts
mod Tests
