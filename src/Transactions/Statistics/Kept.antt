-- ===== src/Transactions/Statistics/Kept.antt =====
-- Every change keeps the statistics exact, so every history of calls does.
use crypto_sim_backend.Common.{
  ℕ, ◌≡◌, refl, sym, ap, ◌∙◌, ℤ, pos, List, ◌∷◌, Option, some, All, count, get_or, arith,
}
use crypto_sim_backend.Common.Table.{
  find_unique, update, update_found, update_same, key_of_found, All-found, All-update,
}
use crypto_sim_backend.Database.{
  Database, User, user_id, AccountType, is_real, TransactionLog, order_key, is_pending,
}
use crypto_sim_backend.Transactions.Inputs.{AdminCreateTransactionDto, SettleTransactionOptions}
use crypto_sim_backend.Transactions.Reasons.{
  Json, PendingForceSettleConfig, parse_pending_force_settle_reason,
}
use crypto_sim_backend.Transactions.Balances.{is_real_win, win_rate_of}
use crypto_sim_backend.Transactions.Settle.{settled_row, settlement_return}
use crypto_sim_backend.Transactions.Create.{new_row, debit}
use crypto_sim_backend.Transactions.AdminCreate.{
  admin_row, status_of, is_settled_at_once, should_auto_settle, return_of,
}
use crypto_sim_backend.Transactions.Cancel.{canceled_row, credit}
use crypto_sim_backend.Transactions.Calls.{Call, run}
use crypto_sim_backend.Transactions.Outcomes.Settled.{
  settled_row-IsSettledFrom, settled_user_id, final_row, final_row-IsSettledFrom, settlement_user,
  apply_settlement_lem,
}
use crypto_sim_backend.Transactions.Outcomes.Admin.{
  debit_id, admin_user, admin_user_id, admin_users_lem,
}
use crypto_sim_backend.Transactions.Changes.{
  Change, opened, admin_opened, settled, canceled, relabeled, Changes-keep, run-Changes, Allowed,
}
use crypto_sim_backend.Transactions.Owners.{HasOwners, owner_of, found_at_key}
use crypto_sim_backend.Transactions.Owners.Kept.{Change-HasOwners}
use crypto_sim_backend.Transactions.Equity.Opening.{credit_id}
use crypto_sim_backend.Transactions.Statistics.{IsBooked, IsExact, AllAgree, rows_after_write}
use crypto_sim_backend.Transactions.Statistics.Trades.{
  same_wins, settled_user-Follows, settled_rows_win, settled_row-IsBooked, not_real_win, wins_kept,
  Follows-same, credit_stats, canceled_same, relabeled_same, relabeled-IsBooked, admin_status,
  return_of_open,
}
use crypto_sim_backend.Transactions.Statistics.Opening.{
  FollowsNew-none, rows_after_open, debit_stats, closed_user-FollowsNew,
}

module _ (json : Json) (P : AdminCreateTransactionDto → Type 0) where
  IsExact-settled :
      (now : ℕ) (exit : Option ℤ) (q : Option PendingForceSettleConfig)
      (o : SettleTransactionOptions) (t : TransactionLog) (owner : User) (db : Database)
      → find_unique order_key t.order_number db.transaction_logs ≡ some t
      → find_unique user_id t.user_id db.users ≡ some owner
      → IsExact db
      → IsExact (record db {
        users = update user_id t.user_id (settlement_user now exit q o t db) db.users;
        transaction_logs =
            update order_key t.order_number (λ _. final_row now exit q o t) db.transaction_logs;
      })
  IsExact-settled now exit q o t owner db ht hu x =
      let actual = settlement_return exit q o t in
      let row = settled_row now exit actual q o t in
      let final = final_row now exit q o t in
      let wrote = settled_row-IsSettledFrom now exit actual q o t in
      let done = final_row-IsSettledFrom now exit q o t in
      let logs = db.transaction_logs in
      let k = t.order_number in
      let uid = t.user_id in
      let alike : is_real_win uid row ≡ is_real_win uid final =
        settled_rows_win uid t row final actual wrote done in
      let same = same_wins uid k t row final logs ht alike in
      record {
        booked =
            All-update order_key IsBooked k (λ _. final) logs x.booked
              (λ y _ _. settled_row-IsBooked t final actual done);
        agrees =
            rows_after_write db t final (settlement_user now exit q o t db) owner ht hu
              (λ v. settled_user_id _ _ _ _ _ _ v) done.user_id
              (settled_user-Follows t.account_type uid
                (count (is_real_win uid) (update order_key k (λ _. row) logs))
                (count (is_real_win uid) (update order_key k (λ _. final) logs)) t.invest_amount
                actual t final owner refl refl done
                (All-found order_key IsBooked k logs t x.booked ht) (λ _. same)
                (λ demo_account.
                  (x.agrees uid owner hu).wins
                  ∙ ap (λ w. win_rate_of w owner.total_trades)
                      (sym (
                        wins_kept uid k t final logs ht (
                          not_real_win uid final (ap is_real done.account_type ∙ demo_account)
                          ∙ sym (not_real_win uid t demo_account))))))
              x.agrees;
      }

  pub Change-IsExact :
      (db : Database) (r : TransactionLog × Database)
      → Change json P db r
      → HasOwners db
      → IsExact db
      → IsExact r.1
  unfolding new_row admin_row
  Change-IsExact db r (opened s uid dto c) owners x =
      let a = get_or dto.account_type AccountType.demo in
      let g = debit a (pos dto.invest_amount) in
      let row = new_row s uid dto c.user db in
      let kept = debit_stats a (pos dto.invest_amount) c.user in
      rw c.applied (record {
        booked = (λ _. refl, x.booked);
        agrees =
            rows_after_open db row g c.user c.found (debit_id a (pos dto.invest_amount))
              (FollowsNew-none uid row db.transaction_logs c.user (g c.user) (ground arith) kept.0
                kept.1 kept.2 (x.agrees uid c.user c.found))
              x.agrees;
      })
  Change-IsExact db r (admin_opened s dto operator name p c) owners x =
      let row = admin_row s dto operator name c.user db in
      let logs = row ∷ db.transaction_logs in
      let wins = count (is_real_win dto.user_id) logs in
      let at_once = is_settled_at_once dto in
      let set = admin_status (status_of dto) (should_auto_settle dto) in
      let agrees =
        rows_after_open db row (admin_user dto wins) c.user c.found (admin_user_id dto wins)
          (closed_user-FollowsNew (is_pending (status_of dto)) at_once
            (get_or dto.account_type AccountType.demo) (pos dto.invest_amount) (return_of dto) wins
            dto.invest_amount dto.user_id row db.transaction_logs c.user refl refl set (λ _. refl)
            refl (x.agrees dto.user_id c.user c.found))
          x.agrees in
      rw c.applied (record {
        booked = ((λ h. return_of_open dto (sym set ∙ h)), x.booked);
        agrees = λ j u found.
            agrees j u
              (ap (find_unique user_id j) (sym (admin_users_lem dto logs db.users)) ∙ found);
      })
  Change-IsExact db r (settled now market order exit o c) owners x =
      let t = c.trade in
      let q = parse_pending_force_settle_reason json t.manual_adjustment_reason in
      let (owner, hu) = owner_of order db t owners c.found in
      rw (c.applied, apply_settlement_lem now c.price q o t db)
        (IsExact-settled now c.price q o t owner db (found_at_key order db t c.found) hu x)
  Change-IsExact db r (canceled order user c) owners x =
      let t = c.trade in
      let uid = t.user_id in
      let n = pos t.invest_amount in
      let at_key = found_at_key order db t c.found in
      let key = key_of_found order_key order db.transaction_logs t c.found in
      let (owner, hu) = owner_of order db t owners c.found in
      let same = canceled_same uid t c.open_trade in
      let kept = credit_stats t.account_type n owner in
      rw
        (
          c.applied,
          ← key,
          update_found order_key t.order_number canceled_row db.transaction_logs t at_key,
        )
        (record {
          booked =
              All-update order_key IsBooked t.order_number (λ _. canceled_row t) db.transaction_logs
                x.booked (λ _ _ _ _. refl);
          agrees =
              rows_after_write db t (canceled_row t) (credit t.account_type n) owner at_key hu
                (credit_id t.account_type n) refl
                (Follows-same uid t.order_number t (canceled_row t) db.transaction_logs owner
                  (credit t.account_type n owner) at_key same.0 same.1 same.2 kept.0 kept.1 kept.2
                  (x.agrees uid owner hu))
                x.agrees;
        })
  Change-IsExact db r (relabeled order c) owners x =
      let t = c.trade in
      let uid = t.user_id in
      let at_key = found_at_key order db t c.found in
      let key = key_of_found order_key order db.transaction_logs t c.found in
      let (owner, hu) = owner_of order db t owners c.found in
      let same = relabeled_same uid order db r c in
      let agrees =
        rows_after_write db t r.0 (λ u. u) owner at_key hu (λ v. refl) c.user_id
          (Follows-same uid t.order_number t r.0 db.transaction_logs owner owner at_key same.0
            same.1 same.2 refl refl refl (x.agrees uid owner hu))
          x.agrees in
      rw (c.applied, ← key)
        (record {
          booked =
              All-update order_key IsBooked t.order_number (λ _. r.0) db.transaction_logs x.booked
                (λ _ _ _. relabeled-IsBooked order db r c (
                  All-found order_key IsBooked t.order_number db.transaction_logs t x.booked
                    at_key));
          agrees = λ j u found.
              agrees j u (ap (find_unique user_id j) (update_same user_id uid db.users) ∙ found);
        })

  -- Let every trade belong to a user of the table, and let the statistics of every user agree with
  -- the log: the trades are the settled ones of the real account, the profit and loss is the sum of
  -- their returns, and the win rate is the share of those that returned more than nothing, in
  -- hundredths of a percent rounded half up. Let, besides, no trade that is not settled have a return
  -- other than 0. Then both hold after every history of the
  -- calls of TransactionLogService.
  pub run-IsExact :
      (db : Database) (cs : List Call)
      → HasOwners db
      → All IsBooked db.transaction_logs
      → AllAgree db
      → All (Allowed json P) cs
      → All IsBooked (run json db cs).transaction_logs × AllAgree (run json db cs)
  run-IsExact db cs owners booked agree allowed = (after.booked, after.agrees)
    where
      after : IsExact (run json db cs)
      after =
          (Changes-keep json P (λ d. HasOwners d × IsExact d)
            (λ d r c h. (Change-HasOwners json P d r c h.0, Change-IsExact d r c h.0 h.1))
            (run-Changes json P db cs allowed)
            (owners, record { booked = booked; agrees = agree })).1
