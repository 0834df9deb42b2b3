-- ===== src/Transactions/Statistics/Trades.antt =====
-- What a write of one trade does to its part in the statistics.
use crypto_sim_backend.Common.{
  ℕ, ◌+◌, ◌≡◌, refl, sym, ap, ◌∙◌, ℤ, pos, ◌+ℤ◌, int_laws, Bool, true, false, ◌||◌, List, some,
  count, if◌then◌else◌, arith, Bool-cases, inl, inr,
}
use crypto_sim_backend.Common.Table.{find_unique, update, bit, count-update}
use crypto_sim_backend.Database.{
  Database, User, AccountType, is_real, TransactionLog, TransactionStatus, order_key, is_settled,
  is_pending,
}
use crypto_sim_backend.Transactions.Inputs.{AdminCreateTransactionDto}
use crypto_sim_backend.Transactions.Balances.{is_real_win, win_rate_of, settled_user}
use crypto_sim_backend.Transactions.AdminCreate.{is_settled_at_once, return_of}
use crypto_sim_backend.Transactions.Cancel.{canceled_row, credit}
use crypto_sim_backend.Transactions.Outcomes.Relabels.{Relabels}
use crypto_sim_backend.Transactions.Outcomes.Settled.{IsSettledFrom}
use crypto_sim_backend.Transactions.Statistics.{is_real_settled, profit, Agrees, IsBooked, Follows}

-- The wins that a settlement counts are those of the log that it leaves.
pub same_wins :
    (uid order : ℕ) (t a b : TransactionLog) (logs : List TransactionLog)
    → find_unique order_key order logs ≡ some t
    → is_real_win uid a ≡ is_real_win uid b
    → count (is_real_win uid) (update order_key order (λ _. a) logs)
      ≡ count (is_real_win uid) (update order_key order (λ _. b) logs)
same_wins uid order t a b logs found same = omega (
  arith,
  count-update order_key (is_real_win uid) order (λ _. a) logs t found,
  count-update order_key (is_real_win uid) order (λ _. b) logs t found,
  ap bit same,
)

-- The owner's row after a settlement.
pub settled_user-Follows :
    (a : AccountType) (uid wins won invest : ℕ) (actual : ℤ) (t t' : TransactionLog) (u : User)
    → t.user_id ≡ uid
    → t.account_type ≡ a
    → IsSettledFrom t actual t'
    → IsBooked t
    → (is_real a ≡ true → wins ≡ won)
    → (is_real a ≡ false → u.win_rate ≡ win_rate_of won u.total_trades)
    → Follows uid t t' won u
        (settled_user a wins invest actual (is_settled t.status) t.actual_return u)
settled_user-Follows AccountType.demo uid wins won invest actual t t' u own acc done booked e k =
    let nothing : profit uid t ≡ profit uid t' = ground arith in
    record {
      trades = ground arith;
      profits = ap (λ d. u.total_profit_loss +ℤ d) nothing;
      wins = k refl;
    }
settled_user-Follows AccountType.real uid wins won invest actual t t' u own acc done booked e k =
    let before : profit uid t ≡ t.actual_return = elim (Bool-cases (is_settled t.status)) [
      | inl was ↦ ground arith
      | inr was_not ↦ ground (arith, booked was_not)
    ] in
    let after : profit uid t' ≡ actual = ground arith in
    record {
      trades = ground arith;
      profits = rw (before, after) (omega int_laws);
      wins =
          ap
            (λ w.
              win_rate_of w (if is_settled t.status then u.total_trades else u.total_trades + 1))
            (e refl);
    }

pub settled_rows_win :
    (uid : ℕ) (t a b : TransactionLog) (actual : ℤ)
    → IsSettledFrom t actual a
    → IsSettledFrom t actual b
    → is_real_win uid a ≡ is_real_win uid b
settled_rows_win uid t a b actual p q = ground arith

pub settled_row-IsBooked :
    (t a : TransactionLog) (actual : ℤ) → IsSettledFrom t actual a → IsBooked a
settled_row-IsBooked t a actual p h = absurd (ground arith)

pub not_real_win :
    (uid : ℕ) (t : TransactionLog) → is_real t.account_type ≡ false → is_real_win uid t ≡ false
not_real_win uid t h = ground arith

-- A write that changes no win keeps their count.
pub wins_kept :
    (uid order : ℕ) (t t' : TransactionLog) (logs : List TransactionLog)
    → find_unique order_key order logs ≡ some t
    → is_real_win uid t' ≡ is_real_win uid t
    → count (is_real_win uid) (update order_key order (λ _. t') logs) ≡ count (is_real_win uid) logs
wins_kept uid order t t' logs found same =
    omega
      (arith, count-update order_key (is_real_win uid) order (λ _. t') logs t found, ap bit same)

-- A write of a trade that leaves its part in the statistics alone.
pub Follows-same :
    (uid order : ℕ) (t t' : TransactionLog) (logs : List TransactionLog) (u u' : User)
    → find_unique order_key order logs ≡ some t
    → is_real_settled uid t' ≡ is_real_settled uid t
    → profit uid t' ≡ profit uid t
    → is_real_win uid t' ≡ is_real_win uid t
    → u'.total_trades ≡ u.total_trades
    → u'.total_profit_loss ≡ u.total_profit_loss
    → u'.win_rate ≡ u.win_rate
    → Agrees uid logs u
    → Follows uid t t' (count (is_real_win uid) (update order_key order (λ _. t') logs)) u u'
Follows-same uid order t t' logs u u' found settled_same profit_same win_same p q r a =
    let kept = wins_kept uid order t t' logs found win_same in
    record {
      trades = omega (arith, p, ap bit settled_same);
      profits = rw (q, profit_same);
      wins =
          r
          ∙ a.wins
          ∙ ap (λ w. win_rate_of w u.total_trades) (sym kept)
          ∙ ap
              (λ n. win_rate_of (count (is_real_win uid) (update order_key order (λ _. t') logs)) n)
              (sym p);
    }

pub credit_stats :
    (a : AccountType) (n : ℤ) (u : User)
    → ((credit a n u).total_trades ≡ u.total_trades)
      × ((credit a n u).total_profit_loss ≡ u.total_profit_loss)
      × ((credit a n u).win_rate ≡ u.win_rate)
credit_stats AccountType.demo n u = (refl, refl, refl)
credit_stats AccountType.real n u = (refl, refl, refl)

-- A canceled trade was open, and counts for nothing before and after.
pub canceled_same :
    (uid : ℕ) (t : TransactionLog)
    → is_pending t.status ≡ true
    → (is_real_settled uid (canceled_row t) ≡ is_real_settled uid t)
      × (profit uid (canceled_row t) ≡ profit uid t)
      × (is_real_win uid (canceled_row t) ≡ is_real_win uid t)
canceled_same uid t h = (ground arith, ground arith, ground arith)

pub relabeled_same :
    (uid order : ℕ) (db : Database) (r : TransactionLog × Database) (c : Relabels order db r)
    → (is_real_settled uid r.0 ≡ is_real_settled uid c.trade)
      × (profit uid r.0 ≡ profit uid c.trade)
      × (is_real_win uid r.0 ≡ is_real_win uid c.trade)
relabeled_same uid order db r c = (ground arith, ground arith, ground arith)

pub relabeled-IsBooked :
    (order : ℕ) (db : Database) (r : TransactionLog × Database) (c : Relabels order db r)
    → IsBooked c.trade
    → IsBooked r.0
relabeled-IsBooked order db r c b h = c.actual_return ∙ b (ap is_settled (sym c.status) ∙ h)

pub admin_status :
    (status : TransactionStatus) (auto : Bool)
    → is_settled (if auto then TransactionStatus.settled else status) ≡ (is_settled status || auto)
admin_status status auto = ground arith

pub return_of_open :
    (dto : AdminCreateTransactionDto) → is_settled_at_once dto ≡ false → return_of dto ≡ pos 0
return_of_open dto h = rw h
