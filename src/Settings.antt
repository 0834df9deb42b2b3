-- ===== src/Settings.antt =====
-- The settings of the system, a table of JSON values by key
-- (backend/src/settings/settings.service.ts).
pub mod Service
pub mod Lookup
mod Tests
