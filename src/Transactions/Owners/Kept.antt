-- ===== src/Transactions/Owners/Kept.antt =====
-- Every change keeps an owner for each trade.
use mathlib.Core.Path.{subst}
use crypto_sim_backend.Common.{ℕ, ◌≡◌, refl, sym, ap, ◌∙◌, pos, ◌∷◌, some, All, count, get_or}
use crypto_sim_backend.Common.Table.{
  find_unique, update, update_found, contains, contains_of_find, contains-update,
}
use crypto_sim_backend.Database.{Database, User, user_id, AccountType, TransactionLog, order_key}
use crypto_sim_backend.Transactions.Inputs.{AdminCreateTransactionDto}
use crypto_sim_backend.Transactions.Reasons.{Json, parse_pending_force_settle_reason}
use crypto_sim_backend.Transactions.Balances.{is_real_win}
use crypto_sim_backend.Transactions.Create.{new_row, debit}
use crypto_sim_backend.Transactions.AdminCreate.{admin_row}
use crypto_sim_backend.Transactions.Cancel.{canceled_row, credit}
use crypto_sim_backend.Transactions.Changes.{
  Change, opened, admin_opened, settled, canceled, relabeled,
}
use crypto_sim_backend.Transactions.Owners.{
  HasOwner, HasOwners, All-HasOwner-update, All-HasOwner-write, found_at_key,
}
use crypto_sim_backend.Transactions.Outcomes.Settled.{
  settled_user_id, final_row, final_row-IsSettledFrom, settlement_user, apply_settlement_lem,
}
use crypto_sim_backend.Transactions.Outcomes.Admin.{
  debit_id, admin_user, admin_user_id, admin_users_lem,
}
use crypto_sim_backend.Transactions.Equity.Opening.{credit_id}

module _ (json : Json) (P : AdminCreateTransactionDto → Type 0) where
  -- A new trade for a user of the table, and a write of that user's row.
  HasOwners-open :
      (k : ℕ) (g : User → User) (u : User) (t : TransactionLog) (db : Database)
      → find_unique user_id k db.users ≡ some u
      → t.user_id ≡ k
      → ((v : User) → (g v).id ≡ v.id)
      → HasOwners db
      → All (HasOwner (update user_id k g db.users)) (t ∷ db.transaction_logs)
  HasOwners-open k g u t db found own same owners = (
    contains-update user_id t.user_id k g db.users same
        ∙ ap (λ j. contains user_id j db.users) own
        ∙ contains_of_find user_id k db.users u found,
    All-HasOwner-update k g db.users db.transaction_logs same owners,
  )

  pub Change-HasOwners :
      (db : Database) (r : TransactionLog × Database)
      → Change json P db r
      → HasOwners db
      → HasOwners r.1
  unfolding new_row admin_row
  Change-HasOwners db r (opened s uid dto c) owners = rw c.applied (
      HasOwners-open uid (debit (get_or dto.account_type AccountType.demo) (pos dto.invest_amount))
        c.user (new_row s uid dto c.user db) db c.found refl
        (debit_id (get_or dto.account_type AccountType.demo) (pos dto.invest_amount)) owners)
  Change-HasOwners db r (admin_opened s dto operator name p c) owners =
      let row = admin_row s dto operator name c.user db in
      let wins = count (is_real_win dto.user_id) (row ∷ db.transaction_logs) in
      rw c.applied (
        subst (λ users. All (HasOwner users) (row ∷ db.transaction_logs))
          (sym (admin_users_lem dto (row ∷ db.transaction_logs) db.users))
          (HasOwners-open dto.user_id (admin_user dto wins) c.user row db c.found refl
            (admin_user_id dto wins) owners))
  Change-HasOwners db r (settled now market order exit o c) owners =
      let t = c.trade in
      let q = parse_pending_force_settle_reason json t.manual_adjustment_reason in
      let g = settlement_user now c.price q o t db in
      let final = final_row now c.price q o t in
      rw (c.applied, apply_settlement_lem now c.price q o t db)
        (All-HasOwner-update t.user_id g db.users
          (update order_key t.order_number (λ _. final) db.transaction_logs)
          (λ v. settled_user_id _ _ _ _ _ _ v)
          (All-HasOwner-write t.order_number t final db.users db.transaction_logs
            (found_at_key order db t c.found) (final_row-IsSettledFrom now c.price q o t).user_id
            owners))
  Change-HasOwners db r (canceled order user c) owners =
      let t = c.trade in
      rw (c.applied, update_found order_key order canceled_row db.transaction_logs t c.found)
        (All-HasOwner-update t.user_id (credit t.account_type (pos t.invest_amount)) db.users
          (update order_key order (λ _. canceled_row t) db.transaction_logs)
          (credit_id t.account_type (pos t.invest_amount))
          (All-HasOwner-write order t (canceled_row t) db.users db.transaction_logs c.found refl
            owners))
  Change-HasOwners db r (relabeled order c) owners =
      rw c.applied
        (All-HasOwner-write order c.trade r.0 db.users db.transaction_logs c.found c.user_id owners)
