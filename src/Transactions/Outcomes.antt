-- ===== src/Transactions/Outcomes.antt =====
-- What a call that returned has met on its way: the rows that it found and the tests that it passed.
pub mod Orders
pub mod Relabels
pub mod Settled
pub mod Admin
use crypto_sim_backend.Common.{
  ℕ, ◌≡◌, ◌≢◌, ℤ, pos, ltb_ℤ, Bool, true, false, Option, none, some, get_or, Result, ok, err, arith,
  refl, Option-cases, Result-cases, Bool-cases, inl, inr,
}
use crypto_sim_backend.Common.Table.{find_unique, update}
use crypto_sim_backend.Database.{
  Database, User, user_id, AccountType, balance_of, TransactionLog, TransactionStatus, order_key,
  is_canceled, is_pending,
}
use crypto_sim_backend.Transactions.Inputs.{
  Error, SettleTransactionOptions, CreateTransactionDto, no_options,
}
use crypto_sim_backend.Transactions.Reasons.{Json, parse_pending_force_settle_reason}
use crypto_sim_backend.Transactions.Hours.{is_closed}
use crypto_sim_backend.Transactions.Settle.{
  apply_settlement, resolve_exit_price, settle_transaction_by_system, settle_transaction,
}
use crypto_sim_backend.Transactions.Create.{
  Surroundings, check_account, new_row, insert_trade, debit, create_transaction,
}
use crypto_sim_backend.Transactions.Cancel.{canceled_row, credit, cancel_transaction}

module _ (json : Json) (now : ℕ) (market : Option ℤ) (order : ℕ) (db : Database) where
  pub record Settles (exit : Option ℤ) (o : SettleTransactionOptions)
      (r : TransactionLog × Database) : Type 0 where
    pub trade : TransactionLog
    pub price : Option ℤ
    pub found : find_unique order_key order db.transaction_logs ≡ some trade
    pub live : is_canceled trade.status ≡ false
    pub priced :
        resolve_exit_price
          (parse_pending_force_settle_reason json trade.manual_adjustment_reason)
          exit
          market
        ≡ ok price
    pub applied :
        r
        ≡ apply_settlement now price
            (parse_pending_force_settle_reason json trade.manual_adjustment_reason)
            o
            trade
            db

  pub settle_transaction_by_system-Settles :
      (exit : Option ℤ) (o : SettleTransactionOptions) (r : TransactionLog × Database)
      → settle_transaction_by_system json now market order exit o db ≡ ok r
      → Settles exit o r
  unfolding settle_transaction_by_system
  settle_transaction_by_system-Settles exit o r h =
      elim (Option-cases (find_unique order_key order db.transaction_logs)) [
        | inl missing ↦ absurd (ground arith)
        | inr (t, found) ↦
            let pending = parse_pending_force_settle_reason json t.manual_adjustment_reason in
            elim (Result-cases (resolve_exit_price pending exit market)) [
              | inl (price, priced) ↦ record {
                trade = t;
                price = price;
                found = found;
                live = ground arith;
                priced = priced;
                applied = ground arith;
              }
              | inr (e, failed) ↦ absurd (ground arith)
            ]
      ]
