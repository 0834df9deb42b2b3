-- ===== src/Users.antt =====
-- The administration of users (backend/src/users/users.service.ts) and of the users that
-- administrators make and trade for (backend/src/operators/operators.service.ts).
pub mod Ids
pub mod Service
pub mod Operators
pub mod Balances
pub mod Distinct
mod Tests
