-- ===== src/Funding.antt =====
-- FundingService (backend/src/funding/funding.service.ts): deposits, withdrawals and their review.
pub mod Checks
pub mod Requests
pub mod Reviews
pub mod Listing
pub mod Outcomes
pub mod Balances
pub mod Accounts
mod Tests
mod Pooled
mod ListingTests
