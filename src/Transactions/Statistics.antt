-- ===== src/Transactions/Statistics.antt =====
-- The statistics that a user's row keeps of its real account, against the log: the settled trades,
-- their returns, and the share of those that returned more than nothing.
pub mod Opening
pub mod Trades
pub mod Kept
use mathlib.Core.Path.{subst}
use crypto_sim_backend.Common.{
  ℕ, ◌+◌, ◌≤◌, ◌≡◌, ◌≢◌, refl, sym, ap, ◌∙◌, ℤ, pos, ◌+ℤ◌, int_laws, pos_part, neg_part, Bool, true,
  false, ◌&&◌, List, ◌∷◌, some, All, count, sum, ◌==◌, if◌then◌else◌, Bool-cases, inl, inr, arith,
}
use crypto_sim_backend.Common.Table.{
  find_unique, update, bit, find-update_self, find-update_ne, key_of_found, sum-update,
  count-update,
}
use crypto_sim_backend.Database.{
  Database, User, user_id, AccountType, is_real, TransactionLog, order_key, is_settled,
}
use crypto_sim_backend.Transactions.Balances.{is_real_win, win_rate_of}

abbrev pub is_real_settled : ℕ → TransactionLog → Bool
is_real_settled uid t = (t.user_id == uid) && is_settled t.status && is_real t.account_type

abbrev pub profit : ℕ → TransactionLog → ℤ
profit uid t = if is_real_settled uid t then t.actual_return else pos 0

-- The row of the user `uid` agrees with the log.
pub record Agrees (uid : ℕ) (logs : List TransactionLog) (u : User) : Type 0 where
  pub trades : u.total_trades ≡ count (is_real_settled uid) logs
  pub profits : u.total_profit_loss ≡ sum (profit uid) logs
  pub wins : u.win_rate ≡ win_rate_of (count (is_real_win uid) logs) u.total_trades

-- A trade that is not settled has no return yet.
abbrev pub IsBooked : TransactionLog → Type 0
IsBooked t = is_settled t.status ≡ false → t.actual_return ≡ pos 0

-- Every user's row agrees with the log.
abbrev pub AllAgree : Database → Type 0
AllAgree db =
    (uid : ℕ) (u : User)
    → find_unique user_id uid db.users ≡ some u
    → Agrees uid db.transaction_logs u

-- What every change keeps: also that no open trade has a return.
pub record IsExact (db : Database) : Type 0 where
  pub booked : All IsBooked db.transaction_logs
  pub agrees : AllAgree db

-- A user's row after a change, by the share of one trade before and after it.
pub record Follows (uid : ℕ) (t t' : TransactionLog) (won : ℕ) (u u' : User) : Type 0 where
  pub trades :
      u'.total_trades + bit (is_real_settled uid t) ≡ u.total_trades + bit (is_real_settled uid t')
  pub profits : u'.total_profit_loss +ℤ profit uid t ≡ u.total_profit_loss +ℤ profit uid t'
  pub wins : u'.win_rate ≡ win_rate_of won u'.total_trades

equal_sums : (a b c d p q : ℤ) → a ≡ b → c +ℤ p ≡ a +ℤ q → d +ℤ p ≡ b +ℤ q → c ≡ d
equal_sums a b c d p q e f g = omega (
  int_laws,
  ap pos_part e,
  ap neg_part e,
  ap pos_part f,
  ap neg_part f,
  ap pos_part g,
  ap neg_part g,
)

module _ (uid : ℕ) (order : ℕ) (t t' : TransactionLog) (logs : List TransactionLog) where
  pub Agrees-write :
      (u u' : User)
      → find_unique order_key order logs ≡ some t
      → Agrees uid logs u
      → Follows uid t t' (count (is_real_win uid) (update order_key order (λ _. t') logs)) u u'
      → Agrees uid (update order_key order (λ _. t') logs) u'
  Agrees-write u u' found a f =
      let counted = count-update order_key (is_real_settled uid) order (λ _. t') logs t found in
      let summed = sum-update order_key (profit uid) order (λ _. t') logs t found in
      record {
        trades = omega (arith, counted, a.trades, f.trades);
        profits = sym (
            equal_sums (sum (profit uid) logs) u.total_profit_loss
              (sum (profit uid) (update order_key order (λ _. t') logs)) u'.total_profit_loss
              (profit uid t) (profit uid t') (sym a.profits) summed f.profits);
        wins = f.wins;
      }

  -- A trade of somebody else counts for nothing.
  pub Follows-other :
      (u : User)
      → find_unique order_key order logs ≡ some t
      → t.user_id ≢ uid
      → t'.user_id ≡ t.user_id
      → Agrees uid logs u
      → Follows uid t t' (count (is_real_win uid) (update order_key order (λ _. t') logs)) u u
  Follows-other u found other same a =
      let b : (t.user_id == uid) ≡ false = ground arith in
      let b' : (t'.user_id == uid) ≡ false = ground arith in
      let counted = count-update order_key (is_real_win uid) order (λ _. t') logs t found in
      let n = count (is_real_win uid) (update order_key order (λ _. t') logs) in
      let kept : n ≡ count (is_real_win uid) logs = ground (arith, counted) in
      record {
        trades = rw (b, b');
        profits = rw (b, b');
        wins = a.wins ∙ ap (λ w. win_rate_of w u.total_trades) (sym kept);
      }

-- What a change of one trade and of its owner's row does to every user's row.
pub rows_after_write :
    (db : Database) (t t' : TransactionLog) (g : User → User) (owner : User)
    → find_unique order_key t.order_number db.transaction_logs ≡ some t
    → find_unique user_id t.user_id db.users ≡ some owner
    → ((v : User) → (g v).id ≡ v.id)
    → t'.user_id ≡ t.user_id
    → Follows t.user_id t t'
        (count
          (is_real_win t.user_id)
          (update order_key t.order_number (λ _. t') db.transaction_logs))
        owner
        (g owner)
    → ((uid : ℕ) (u : User)
        → find_unique user_id uid db.users ≡ some u
        → Agrees uid db.transaction_logs u)
    → (uid : ℕ) (u : User) → find_unique user_id uid (update user_id t.user_id g db.users) ≡ some u
    → Agrees uid (update order_key t.order_number (λ _. t') db.transaction_logs) u
rows_after_write db t t' g owner ht hu same own follows all uid u found =
    let k = t.order_number in
    let logs = db.transaction_logs in
    elim (Bool-cases (t.user_id == uid)) [
      | inl hit ↦
          let e : t.user_id ≡ uid = ground arith in
          let found' : find_unique user_id t.user_id (update user_id t.user_id g db.users)
              ≡ some u =
            subst (λ j. find_unique user_id j (update user_id t.user_id g db.users) ≡ some u)
              (sym e) found in
          let at_k =
            find-update_self user_id t.user_id g db.users owner hu
              (same owner ∙ key_of_found user_id t.user_id db.users owner hu) in
          let is_g : g owner ≡ u = ground (arith, at_k, found') in
          subst (λ j. Agrees j (update order_key k (λ _. t') logs) u) e
            (subst (Agrees t.user_id (update order_key k (λ _. t') logs)) is_g (
              Agrees-write t.user_id k t t' logs owner (g owner) ht (all t.user_id owner hu)
                follows))
      | inr miss ↦
          let ne : t.user_id ≢ uid = ground arith in
          let ne' : uid ≢ t.user_id = ground arith in
          let found' : find_unique user_id uid db.users ≡ some u =
            sym (find-update_ne user_id uid t.user_id g db.users ne' same) ∙ found in
          let a = all uid u found' in
          Agrees-write uid k t t' logs u u ht a (Follows-other uid k t t' logs u ht ne own a)
    ]
