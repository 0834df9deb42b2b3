-- ===== src/Transactions/Statistics/Opening.antt =====
-- A new trade, and the statistics.
use mathlib.Core.Path.{subst}
use crypto_sim_backend.Common.{
  ℕ, ◌+◌, ◌≡◌, ◌≢◌, refl, sym, ap, ◌∙◌, ℤ, ◌+ℤ◌, int_laws, Bool, true, false, List, ◌∷◌, some,
  count, ◌==◌, Bool-cases, inl, inr, arith,
}
use crypto_sim_backend.Common.Table.{
  find_unique, update, bit, find-update_self, find-update_ne, key_of_found,
}
use crypto_sim_backend.Database.{Database, User, user_id, AccountType, TransactionLog, is_settled}
use crypto_sim_backend.Transactions.Balances.{is_real_win, win_rate_of}
use crypto_sim_backend.Transactions.Create.{debit}
use crypto_sim_backend.Transactions.Outcomes.Admin.{staked_user, closed_user}
use crypto_sim_backend.Transactions.Statistics.{is_real_settled, profit, Agrees}

-- The owner's row after a new trade.
pub record FollowsNew (uid : ℕ) (t : TransactionLog) (won : ℕ) (u u' : User) : Type 0 where
  pub trades : u'.total_trades ≡ u.total_trades + bit (is_real_settled uid t)
  pub profits : u'.total_profit_loss ≡ profit uid t +ℤ u.total_profit_loss
  pub wins : u'.win_rate ≡ win_rate_of won u'.total_trades

module _ (uid : ℕ) (t : TransactionLog) (logs : List TransactionLog) where
  Agrees-new :
      (u u' : User)
      → Agrees uid logs u
      → FollowsNew uid t (count (is_real_win uid) (t ∷ logs)) u u'
      → Agrees uid (t ∷ logs) u'
  Agrees-new u u' a f = record {
    trades = ground (arith, f.trades, a.trades);
    profits = f.profits ∙ ap (λ s. profit uid t +ℤ s) a.profits;
    wins = f.wins;
  }

  -- A trade that is not a settled one of the user's real account counts for nothing.
  pub FollowsNew-none :
      (u u' : User)
      → is_real_settled uid t ≡ false
      → u'.total_trades ≡ u.total_trades
      → u'.total_profit_loss ≡ u.total_profit_loss
      → u'.win_rate ≡ u.win_rate
      → Agrees uid logs u
      → FollowsNew uid t (count (is_real_win uid) (t ∷ logs)) u u'
  FollowsNew-none u u' none_of p q r a =
      let no_win : is_real_win uid t ≡ false = ground arith in
      let kept : count (is_real_win uid) (t ∷ logs) ≡ count (is_real_win uid) logs = rw no_win in
      record {
        trades = rw none_of (omega (arith, p));
        profits = rw (none_of, q) (omega int_laws);
        wins =
            r
            ∙ a.wins
            ∙ ap (λ w. win_rate_of w u.total_trades) (sym kept)
            ∙ ap (λ n. win_rate_of (count (is_real_win uid) (t ∷ logs)) n) (sym p);
      }

pub rows_after_open :
    (db : Database) (t : TransactionLog) (g : User → User) (owner : User)
    → find_unique user_id t.user_id db.users ≡ some owner
    → ((v : User) → (g v).id ≡ v.id)
    → FollowsNew t.user_id t
        (count (is_real_win t.user_id) (t ∷ db.transaction_logs))
        owner
        (g owner)
    → ((uid : ℕ) (u : User)
        → find_unique user_id uid db.users ≡ some u
        → Agrees uid db.transaction_logs u)
    → (uid : ℕ) (u : User) → find_unique user_id uid (update user_id t.user_id g db.users) ≡ some u
    → Agrees uid (t ∷ db.transaction_logs) u
rows_after_open db t g owner hu same follows all uid u found =
    let logs = db.transaction_logs in
    elim (Bool-cases (t.user_id == uid)) [
      | inl hit ↦
          let e : t.user_id ≡ uid = ground arith in
          let found' : find_unique user_id t.user_id (update user_id t.user_id g db.users)
              ≡ some u =
            subst (λ j. find_unique user_id j (update user_id t.user_id g db.users) ≡ some u)
              (sym e) found in
          let at_k =
            find-update_self user_id t.user_id g db.users owner hu
              (same owner ∙ key_of_found user_id t.user_id db.users owner hu) in
          let is_g : g owner ≡ u = ground (arith, at_k, found') in
          subst (λ j. Agrees j (t ∷ logs) u) e
            (subst (Agrees t.user_id (t ∷ logs)) is_g
              (Agrees-new t.user_id t logs owner (g owner) (all t.user_id owner hu) follows))
      | inr miss ↦
          let ne : uid ≢ t.user_id = ground arith in
          let found' : find_unique user_id uid db.users ≡ some u =
            sym (find-update_ne user_id uid t.user_id g db.users ne same) ∙ found in
          let a = all uid u found' in
          let other : is_real_settled uid t ≡ false = rw miss in
          Agrees-new uid t logs u u a (FollowsNew-none uid t logs u u other refl refl refl a)
    ]

pub debit_stats :
    (a : AccountType) (n : ℤ) (u : User)
    → ((debit a n u).total_trades ≡ u.total_trades)
      × ((debit a n u).total_profit_loss ≡ u.total_profit_loss)
      × ((debit a n u).win_rate ≡ u.win_rate)
debit_stats AccountType.demo n u = (refl, refl, refl)
debit_stats AccountType.real n u = (refl, refl, refl)

-- The row of an administrator's trade and its owner's row, by the account and the way it is opened.
pub closed_user-FollowsNew :
    (p at_once : Bool) (a : AccountType) (n actual : ℤ) (wins invest : ℕ) (uid : ℕ)
    (t : TransactionLog) (logs : List TransactionLog) (u : User)
    → t.user_id ≡ uid
    → t.account_type ≡ a
    → is_settled t.status ≡ at_once
    → (at_once ≡ true → t.actual_return ≡ actual)
    → wins ≡ count (is_real_win uid) (t ∷ logs)
    → Agrees uid logs u
    → FollowsNew uid t
        (count (is_real_win uid) (t ∷ logs))
        u
        (closed_user at_once a wins invest actual (staked_user p a n u))
closed_user-FollowsNew p at_once AccountType.demo n actual wins invest uid t logs u own acc set ret
      e a =
    FollowsNew-none uid t logs u _ (ground arith) (ground arith) (ground arith) (ground arith) a
closed_user-FollowsNew p false AccountType.real n actual wins invest uid t logs u own acc set ret e
      a =
    FollowsNew-none uid t logs u _ (ground arith) (ground arith) (ground arith) (ground arith) a
closed_user-FollowsNew p true AccountType.real n actual wins invest uid t logs u own acc set ret e
      a =
    let counted : is_real_settled uid t ≡ true = ground arith in
    let booked : profit uid t ≡ actual = rw counted (ret refl) in
    let kept : (staked_user p AccountType.real n u).total_profit_loss ≡ u.total_profit_loss =
      ground arith in
    record {
      trades = ground arith;
      profits = rw (kept, booked) (omega int_laws);
      wins = ap (λ w. win_rate_of w ((staked_user p AccountType.real n u).total_trades + 1)) e;
    }
