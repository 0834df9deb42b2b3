-- ===== src/Database.antt =====
-- The tables that the services share (backend/prisma/schema.prisma). Amounts are integers in units
-- of 10^-8, the scale of the columns; times are milliseconds; identifiers are only compared.
mod Users
mod Trades
mod Fundings
mod Deposits
mod Managed
pub use Users.*
pub use Trades.*
pub use Fundings.*
pub use Deposits.*
pub use Managed.*
use crypto_sim_backend.Common.{List}

pub record Database : Type 0 where
  pub users : List User
  pub transaction_logs : List TransactionLog
  pub market_sessions : List MarketSession
  pub funding_records : List FundingRecord
  pub balance_ledgers : List BalanceLedger
  pub deposit_addresses : List DepositAddress
  pub deposit_allocations : List DepositAllocation
  pub trading_sessions : List TradingSession
  pub trading_cycles : List TradingCycle
