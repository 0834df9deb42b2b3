-- ===== src/Transactions/Equity.antt =====
-- The equity of a user's account: its balance, with the stakes of its open trades and without the
-- returns of its settled ones. How a write of one row moves it.
pub mod Settling
pub mod Opening
pub mod Admin
pub mod Runs
use mathlib.Core.Path.{subst}
use crypto_sim_backend.Common.{
  ℕ, ◌≡◌, ◌≢◌, ℤ, pos, ◌+ℤ◌, ◌-ℤ◌, sum_moves, ◌&&◌, List, Option, none, some, sum, ◌==◌,
  if◌then◌else◌, Bool-cases, inl, inr, arith, refl, ap,
}
use crypto_sim_backend.Common.Table.{
  find_unique, update, find-update_self, find-update_ne, key_of_found, sum-update,
}
use crypto_sim_backend.Database.{
  Database, User, user_id, AccountType, same_account, balance_of, TransactionLog, TransactionStatus,
  order_key,
}

abbrev pub open_amount : TransactionStatus → ℕ → ℤ → ℤ
open_amount TransactionStatus.pending invest actual = pos invest
open_amount TransactionStatus.settled invest actual = pos 0 -ℤ actual
open_amount TransactionStatus.canceled invest actual = pos 0

module _ (uid : ℕ) (account : AccountType) where
  abbrev pub stake : TransactionLog → ℤ
  stake t =
      if (t.user_id == uid) && same_account t.account_type account
      then open_amount t.status t.invest_amount t.actual_return
      else pos 0

  abbrev pub held_by : Option User → ℤ
  held_by none = pos 0
  held_by (some u) = balance_of account u

  abbrev pub held : List User → ℤ
  held users = held_by (find_unique user_id uid users)

  unfoldable pub equity : Database → ℤ
  equity db = held db.users +ℤ sum stake db.transaction_logs

  pub held-update :
      (k : ℕ) (g : User → User) (users : List User) (u : User)
      → find_unique user_id k users ≡ some u
      → ((v : User) → (g v).id ≡ v.id)
      → held (update user_id k g users)
        ≡ (if k == uid then balance_of account (g u) else held users)
  held-update k g users u found same = elim (Bool-cases (k == uid)) [
    | inl hit ↦
        let e : k ≡ uid = ground arith in
        let at_k : find_unique user_id k (update user_id k g users) ≡ some (g u) =
          find-update_self user_id k g users u found
            (ground (arith, same u, key_of_found user_id k users u found)) in
        ground (arith, at_k)
    | inr miss ↦
        let ne : uid ≢ k = ground arith in
        ground (arith, find-update_ne user_id uid k g users ne same)
  ]

  -- A write of one trade and of its owner conserves the equity, if what the owner's balance gains
  -- is what the trade's part in it loses, and no other account has a part in the trade.
  pub equity-write :
      (db : Database) (t t' : TransactionLog) (u : User) (g : User → User)
      → find_unique order_key t.order_number db.transaction_logs ≡ some t
      → find_unique user_id t.user_id db.users ≡ some u
      → ((v : User) → (g v).id ≡ v.id)
      → (t.user_id ≡ uid → balance_of account (g u) +ℤ stake t' ≡ balance_of account u +ℤ stake t)
      → (t.user_id ≢ uid → stake t' ≡ stake t)
      → equity (record db {
        users = update user_id t.user_id g db.users;
        transaction_logs = update order_key t.order_number (λ _. t') db.transaction_logs;
      })
        ≡ equity db
  unfolding equity
  equity-write db t t' u g ht hu same own other =
      let logs = db.transaction_logs in
      let k = t.order_number in
      let sums = sum-update order_key stake k (λ _. t') logs t ht in
      let holds = held-update t.user_id g db.users u hu same in
      elim (Bool-cases (t.user_id == uid)) [
        | inl hit ↦
            let e : t.user_id ≡ uid = ground arith in
            let found : find_unique user_id uid db.users ≡ some u =
              subst (λ k. find_unique user_id k db.users ≡ some u) e hu in
            sum_moves (held db.users) (held (update user_id t.user_id g db.users))
              (balance_of account u) (balance_of account (g u)) (sum stake logs)
              (sum stake (update order_key k (λ _. t') logs)) (stake t) (stake t')
              (ap held_by found) (rw hit at holds) sums (own e)
        | inr miss ↦
            let ne : t.user_id ≢ uid = ground arith in
            sum_moves (held db.users) (held (update user_id t.user_id g db.users)) (held db.users)
              (held db.users) (sum stake logs) (sum stake (update order_key k (λ _. t') logs))
              (stake t) (stake t') refl (rw miss at holds) sums
              (ap (λ s. held db.users +ℤ s) (other ne))
      ]
