-- ===== src/Transactions/Calls.antt =====
-- The calls that change the trades, and what they leave, in any order. A call that throws leaves the
-- database as it was: every throw stands before the first write.
use crypto_sim_backend.Common.{ℕ, ℤ, List, [], ◌∷◌, Option, Text, Result, ok, err}
use crypto_sim_backend.Database.{Database, TransactionLog}
use crypto_sim_backend.Transactions.Inputs.{
  Error, CreateTransactionDto, AdminCreateTransactionDto, SettleTransactionOptions,
}
use crypto_sim_backend.Transactions.Reasons.{Json}
use crypto_sim_backend.Transactions.Settle.{settle_transaction_by_system, settle_transaction}
use crypto_sim_backend.Transactions.Create.{Surroundings, create_transaction}
use crypto_sim_backend.Transactions.AdminCreate.{admin_create_transaction}
use crypto_sim_backend.Transactions.Cancel.{
  cancel_transaction, update_current_price, ForceSettleParams, force_settle_transaction,
}
use crypto_sim_backend.Transactions.AutoSettle.{
  auto_settle_by_order_number, auto_settle_expired_transactions,
}

pub data Call : Type 0 where
  creates : Surroundings → ℕ → CreateTransactionDto → Call
  admin_creates : Surroundings → AdminCreateTransactionDto → ℕ → Option Text → Call
  settles : ℕ → Option ℤ → ℕ → ℤ → ℕ → Call
  settles_by_system : ℕ → Option ℤ → ℕ → Option ℤ → SettleTransactionOptions → Call
  cancels : ℕ → ℕ → Call
  updates_price : ℕ → ℕ → Call
  forces : ℕ → ℕ → ForceSettleParams → Call
  auto_settles : (Text → Option ℤ) → ℕ → ℕ → Call
  scans : (Text → Option ℤ) → ℕ → Call

abbrev pub after : Database → Result Error (TransactionLog × Database) → Database
after db (ok (t, db')) = db'
after db (err e) = db

abbrev pub after_job : Database → Result Error Database → Database
after_job db (ok db') = db'
after_job db (err e) = db

module _ (json : Json) where
  unfoldable pub step : Database → Call → Database
  step db (creates s uid dto) = after db (create_transaction s uid dto db)
  step db (admin_creates s dto operator name) =
      after db (admin_create_transaction s dto operator name db)
  step db (settles now market order exit user) =
      after db (settle_transaction json now market order exit user db)
  step db (settles_by_system now market order exit o) =
      after db (settle_transaction_by_system json now market order exit o db)
  step db (cancels order user) = after db (cancel_transaction order user db)
  step db (updates_price order price) = after db (update_current_price order price db)
  step db (forces now order params) = after db (force_settle_transaction json now order params db)
  step db (auto_settles market now order) =
      after_job db (auto_settle_by_order_number json market now order db)
  step db (scans market now) = (auto_settle_expired_transactions json market now db).1

  unfoldable pub run : Database → List Call → Database
  run db [] = db
  run db (c ∷ cs) = run (step db c) cs
