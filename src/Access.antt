-- ===== src/Access.antt =====
-- Lists of addresses that may reach the site or the administration
-- (backend/src/frontend-ip-whitelist/frontend-ip-whitelist.service.ts and
-- backend/src/common/guards/ip-whitelist.guard.ts).
pub mod Frontend
pub mod Guard
pub mod Lists
mod Tests
