-- ===== src/Deposits.antt =====
-- DepositAddressService (backend/src/deposit-address/deposit-address.service.ts) and the risk checker
-- beside it: the pool of deposit addresses, its children by operation.
pub mod Patterns
pub mod Addresses
pub mod Allocate
pub mod Release
pub mod Review
pub mod Fitting
pub mod Picking
pub mod Accounts
pub mod Tests
