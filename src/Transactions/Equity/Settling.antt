-- ===== src/Transactions/Equity/Settling.antt =====
-- A settlement conserves the equity of every account, whatever the trade's status was before.
use crypto_sim_backend.Common.{
  ℕ, ◌≡◌, ◌≢◌, ℤ, pos, ◌+ℤ◌, int_laws, false, Option, some, count, if◌then◌else◌, arith, refl,
}
use crypto_sim_backend.Common.Table.{find_unique, update}
use crypto_sim_backend.Database.{
  Database, User, user_id, AccountType, same_account, balance_of, TransactionLog, TransactionStatus,
  order_key, is_settled, is_canceled,
}
use crypto_sim_backend.Transactions.Inputs.{SettleTransactionOptions}
use crypto_sim_backend.Transactions.Reasons.{
  Json, PendingForceSettleConfig, parse_pending_force_settle_reason,
}
use crypto_sim_backend.Transactions.Balances.{settled_user, is_real_win}
use crypto_sim_backend.Transactions.Settle.{settled_row, settlement_return, apply_settlement}
use crypto_sim_backend.Transactions.Outcomes.{Settles}
use crypto_sim_backend.Transactions.Outcomes.Settled.{
  IsSettledFrom, settled_user_id, final_row, final_row-IsSettledFrom, settlement_user,
  apply_settlement_lem,
}
use crypto_sim_backend.Transactions.Owners.{HasOwners, owner_of, found_at_key}
use crypto_sim_backend.Transactions.Equity.{open_amount, stake, equity, equity-write}

abbrev amount_in : AccountType → AccountType → TransactionStatus → ℕ → ℤ → ℤ
amount_in a account status invest actual =
    if same_account a account then open_amount status invest actual else pos 0

settled_user_moves :
    (a account : AccountType) (status : TransactionStatus) (wins invest : ℕ) (actual previous : ℤ)
    (u : User)
    → is_canceled status ≡ false
    → balance_of account (settled_user a wins invest actual (is_settled status) previous u)
        +ℤ amount_in a account TransactionStatus.settled invest actual
      ≡ balance_of account u +ℤ amount_in a account status invest previous
settled_user_moves a account TransactionStatus.canceled wins invest actual previous u h = cc
settled_user_moves AccountType.demo AccountType.real status wins invest actual previous u h = refl
settled_user_moves AccountType.real AccountType.demo status wins invest actual previous u h = refl
settled_user_moves AccountType.demo AccountType.demo TransactionStatus.pending wins invest actual
      previous u h =
    omega int_laws
settled_user_moves AccountType.demo AccountType.demo TransactionStatus.settled wins invest actual
      previous u h =
    omega int_laws
settled_user_moves AccountType.real AccountType.real TransactionStatus.pending wins invest actual
      previous u h =
    omega int_laws
settled_user_moves AccountType.real AccountType.real TransactionStatus.settled wins invest actual
      previous u h =
    omega int_laws

module _ (uid : ℕ) (account : AccountType) where
  -- The trade's part in the account before and after, for its owner and for anyone else.
  stake_of_owner :
      (t t' : TransactionLog) (actual : ℤ)
      → IsSettledFrom t actual t'
      → t.user_id ≡ uid
      → (stake uid account t
          ≡ amount_in t.account_type account t.status t.invest_amount t.actual_return)
        × (stake uid account t'
            ≡ amount_in t.account_type account TransactionStatus.settled t.invest_amount actual)
  stake_of_owner t t' actual done h = ground arith

  stake_of_other :
      (t t' : TransactionLog) (actual : ℤ)
      → IsSettledFrom t actual t'
      → t.user_id ≢ uid
      → stake uid account t' ≡ stake uid account t
  stake_of_other t t' actual done h = ground arith

  pub equity-apply_settlement :
      (now : ℕ) (exit : Option ℤ) (p : Option PendingForceSettleConfig)
      (o : SettleTransactionOptions) (t : TransactionLog) (u : User) (db : Database)
      → find_unique order_key t.order_number db.transaction_logs ≡ some t
      → find_unique user_id t.user_id db.users ≡ some u
      → is_canceled t.status ≡ false
      → equity uid account (apply_settlement now exit p o t db).1 ≡ equity uid account db
  equity-apply_settlement now exit p o t u db ht hu live =
      let actual = settlement_return exit p o t in
      let final = final_row now exit p o t in
      let done = final_row-IsSettledFrom now exit p o t in
      let g = settlement_user now exit p o t db in
      rw (apply_settlement_lem now exit p o t db) (
        equity-write uid account db t final u g ht hu (λ v. settled_user_id _ _ _ _ _ _ v)
          (λ own.
            let stakes = stake_of_owner t final actual done own in
            rw (stakes.0, stakes.1)
              (settled_user_moves t.account_type account t.status
                (count (is_real_win t.user_id) (
                  update order_key t.order_number (λ _. settled_row now exit actual p o t)
                    db.transaction_logs))
                t.invest_amount actual t.actual_return u live))
          (stake_of_other t final actual done))

  -- The settlement of a trade by the system, or by its owner, conserves the equity of the account.
  pub equity-Settles :
      (json : Json) (now : ℕ) (market : Option ℤ) (order : ℕ) (exit : Option ℤ)
      (o : SettleTransactionOptions) (db : Database) (r : TransactionLog × Database)
      → HasOwners db
      → Settles json now market order db exit o r
      → equity uid account r.1 ≡ equity uid account db
  equity-Settles json now market order exit o db r owners s =
      let t = s.trade in
      let (u, hu) = owner_of order db t owners s.found in
      let at_key = found_at_key order db t s.found in
      rw s.applied (
        equity-apply_settlement now s.price
          (parse_pending_force_settle_reason json t.manual_adjustment_reason) o t u db at_key hu
          s.live)
