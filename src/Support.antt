-- ===== src/Support.antt =====
-- The customer support chat (backend/src/support/support.service.ts): conversations between users
-- and administrators, their messages, the counters of unread messages, and the export as CSV.
pub mod Rows
pub mod Conversations
pub mod Messages
pub mod Unread
pub mod Opening
pub mod Runs
pub mod Queries
pub mod Csv
pub mod Paging
pub mod Recall
mod Tests
