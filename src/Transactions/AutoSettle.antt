-- ===== src/Transactions/AutoSettle.antt =====
-- The settlements at expiry: by the queue's job, and by the scheduled scan.
use crypto_sim_backend.Common.{
  ℕ, ◌+◌, ℤ, pos, ltb_ℤ, Bool, ◌&&◌, List, [], ◌∷◌, Option, none, some, filter, Text, text, Result,
  ok, err, ◌>>=◌, or_throw, leb, if◌then◌else◌,
}
use crypto_sim_backend.Common.Table.{find_unique}
use crypto_sim_backend.Database.{Database, TransactionLog, order_key, is_pending}
use crypto_sim_backend.Transactions.Inputs.{Error, SettleTransactionOptions, no_options}
use crypto_sim_backend.Transactions.Reasons.{Json}
use crypto_sim_backend.Transactions.Settle.{settle_transaction_by_system}

-- The row's last price where it is positive, else the market's.
abbrev pub expiry_price : Option ℤ → Option ℤ → Result Error ℤ
expiry_price none market = or_throw market Error.price_unavailable
expiry_price (some p) market =
    if ltb_ℤ (pos 0) p then ok p else or_throw market Error.price_unavailable

abbrev pub auto_expired : SettleTransactionOptions
auto_expired = record no_options { reason = some (text "AUTO_EXPIRED") }

-- What is past its expiry and still open.
abbrev pub is_expired : ℕ → TransactionLog → Bool
is_expired now t = is_pending t.status && leb t.expiry_time now

module _ (json : Json) (market : Text → Option ℤ) where
  unfoldable pub settle_expired :
      ℕ → TransactionLog → Database → Result Error (TransactionLog × Database)
  settle_expired now t db = do
    price ← expiry_price t.current_price (market t.asset_type)
    settle_transaction_by_system json now (market t.asset_type) t.order_number (some price)
        auto_expired db

  -- The job of the queue: an order that is missing or no longer open is passed over.
  unfoldable pub auto_settle_by_order_number : ℕ → ℕ → Database → Result Error Database
  auto_settle_by_order_number now order db =
      elim (find_unique order_key order db.transaction_logs) [
        | none ↦ ok db
        | some t ↦ if is_pending t.status then (settle_expired now t db >>= λ r. ok r.1) else ok db
      ]

  -- One round of the scan's loop: what throws is logged and passed over.
  abbrev pub after_round : Result Error (TransactionLog × Database) → ℕ × Database → ℕ × Database
  after_round (ok (t, db')) (n, db) = (n + 1, db')
  after_round (err e) (n, db) = (n, db)

  unfoldable pub settle_each : ℕ → List TransactionLog → ℕ × Database → ℕ × Database
  settle_each now [] acc = acc
  settle_each now (t ∷ ts) acc = settle_each now ts (after_round (settle_expired now t acc.1) acc)

  unfoldable pub auto_settle_expired_transactions : ℕ → Database → ℕ × Database
  auto_settle_expired_transactions now db =
      settle_each now (filter (is_expired now) db.transaction_logs) (0, db)
