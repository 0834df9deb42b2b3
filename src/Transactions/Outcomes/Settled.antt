-- ===== src/Transactions/Outcomes/Settled.antt =====
-- A settlement's writes as one write of the trade and one of its owner's row.
use crypto_sim_backend.Common.{ℕ, ◌≡◌, refl, ap, ℤ, Bool, Option, none, some, count, arith}
use crypto_sim_backend.Common.Table.{update, update_twice}
use crypto_sim_backend.Database.{
  Database, User, user_id, AccountType, TransactionLog, TransactionStatus, order_key, is_settled,
}
use crypto_sim_backend.Transactions.Inputs.{SettleTransactionOptions}
use crypto_sim_backend.Transactions.Reasons.{PendingForceSettleConfig}
use crypto_sim_backend.Transactions.Balances.{settled_user, is_real_win}
use crypto_sim_backend.Transactions.Settle.{
  settled_row, with_settled_balance, settlement_return, apply_settlement,
}

-- What a settlement leaves of the trade, and what it decides.
pub record IsSettledFrom (t : TransactionLog) (actual : ℤ) (t' : TransactionLog) : Type 0 where
  pub order_number : t'.order_number ≡ t.order_number
  pub user_id : t'.user_id ≡ t.user_id
  pub account_type : t'.account_type ≡ t.account_type
  pub invest_amount : t'.invest_amount ≡ t.invest_amount
  pub status : t'.status ≡ TransactionStatus.settled
  pub actual_return : t'.actual_return ≡ actual

pub settled_row-IsSettledFrom :
    (now : ℕ) (exit : Option ℤ) (actual : ℤ) (p : Option PendingForceSettleConfig)
    (o : SettleTransactionOptions) (t : TransactionLog)
    → IsSettledFrom t actual (settled_row now exit actual p o t)
unfolding settled_row
settled_row-IsSettledFrom now exit actual p o t = ground arith

pub with_settled_balance-IsSettledFrom :
    (entry : Option ℤ) (actual : ℤ) (t t' : TransactionLog)
    → IsSettledFrom t actual t'
    → IsSettledFrom t actual (with_settled_balance entry actual t')
with_settled_balance-IsSettledFrom none actual t t' h = h
with_settled_balance-IsSettledFrom (some e) actual t t' h = record {
  order_number = h.order_number;
  user_id = h.user_id;
  account_type = h.account_type;
  invest_amount = h.invest_amount;
  status = h.status;
  actual_return = h.actual_return;
}

pub settled_user_id :
    (a : AccountType) (wins invest : ℕ) (actual : ℤ) (was : Bool) (previous : ℤ) (u : User)
    → (settled_user a wins invest actual was previous u).id ≡ u.id
settled_user_id AccountType.demo wins invest actual was previous u = refl
settled_user_id AccountType.real wins invest actual was previous u = refl

module _ (now : ℕ) (exit : Option ℤ) (p : Option PendingForceSettleConfig)
    (o : SettleTransactionOptions) (t : TransactionLog) where
  abbrev pub final_row : TransactionLog
  final_row =
      let actual = settlement_return exit p o t in
      with_settled_balance t.entry_account_balance actual (settled_row now exit actual p o t)

  pub final_row-IsSettledFrom : IsSettledFrom t (settlement_return exit p o t) final_row
  final_row-IsSettledFrom =
      let actual = settlement_return exit p o t in
      with_settled_balance-IsSettledFrom t.entry_account_balance actual t
        (settled_row now exit actual p o t) (settled_row-IsSettledFrom now exit actual p o t)

  -- The change of the owner's row, with the wins that the service counts.
  abbrev pub settlement_user : Database → User → User
  settlement_user db =
      let actual = settlement_return exit p o t in
      let row = settled_row now exit actual p o t in
      settled_user t.account_type
        (count (is_real_win t.user_id)
          (update order_key t.order_number (λ _. row) db.transaction_logs))
        t.invest_amount actual (is_settled t.status) t.actual_return

  pub apply_settlement_lem :
      (db : Database)
      → (apply_settlement now exit p o t db).1 ≡ record db {
        users = update user_id t.user_id (settlement_user db) db.users;
        transaction_logs = update order_key t.order_number (λ _. final_row) db.transaction_logs;
      }
  unfolding apply_settlement
  apply_settlement_lem db =
      let actual = settlement_return exit p o t in
      let row = settled_row now exit actual p o t in
      ap
        (λ logs. record db {
          users = update user_id t.user_id (settlement_user db) db.users;
          transaction_logs = logs;
        })
        (update_twice order_key t.order_number row final_row db.transaction_logs
          (settled_row-IsSettledFrom now exit actual p o t).order_number)
