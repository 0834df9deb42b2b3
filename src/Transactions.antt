-- ===== src/Transactions.antt =====
-- TransactionLogService (backend/src/transaction-log/transaction-log.service.ts): what its methods
-- take and throw. The methods stand in the children.
pub mod Inputs
pub mod Hours
pub mod Durations
pub mod Reasons
pub mod Balances
pub mod Settle
pub mod Create
pub mod Cancel
pub mod AutoSettle
pub mod AdminCreate
pub mod Listing
pub mod Listed
pub mod Calls
pub mod Changes
pub mod Outcomes
pub mod Forced
pub mod Owners
pub mod Equity
pub mod Statistics
mod Tests
