-- ===== src/Transactions/Forced.antt =====
-- A preset of an administrator, and the settlement that comes after it.
use crypto_sim_backend.Common.{
  ℕ, ◌≡◌, refl, ap, ◌∙◌, ℤ, Bool, true, false, Option, none, some, or_else, get_or, ok,
  Option-cases, Bool-cases, inl, inr, arith,
}
use crypto_sim_backend.Common.Table.{find_unique, update, find-update_self, key_of_found}
use crypto_sim_backend.Database.{
  Database, TransactionLog, TransactionStatus, order_key, is_canceled, is_settled,
}
use crypto_sim_backend.Transactions.Inputs.{ForcedResult, SettleTransactionOptions}
use crypto_sim_backend.Transactions.Reasons.{
  Json, PendingForceSettleConfig, parse_pending_force_settle_reason,
  build_pending_force_settle_reason, parse-build,
}
use crypto_sim_backend.Transactions.Balances.{actual_return_of}
use crypto_sim_backend.Transactions.Settle.{
  is_win, resolve_exit_price, settled_row, with_settled_balance, settlement_return,
  apply_settlement, settle_transaction_by_system,
}
use crypto_sim_backend.Transactions.Cancel.{
  ForceSettleParams, pending_config, force_settled_row, force_settle_transaction,
}
use crypto_sim_backend.Transactions.Outcomes.Settled.{final_row, final_row-IsSettledFrom}

abbrev pub is_forced_win : ForcedResult → Bool
is_forced_win ForcedResult.win = true
is_forced_win ForcedResult.lose = false

is_win_forced :
    (w : ForcedResult) (t : TransactionLog) (exit : Option ℤ)
    → is_win (some w) t exit ≡ is_forced_win w
unfolding is_win
is_win_forced ForcedResult.win t exit = refl
is_win_forced ForcedResult.lose t exit = refl

with_settled_balance-exit_price :
    (entry : Option ℤ) (actual : ℤ) (t : TransactionLog)
    → (with_settled_balance entry actual t).exit_price ≡ t.exit_price
with_settled_balance-exit_price none actual t = refl
with_settled_balance-exit_price (some e) actual t = refl

settled_row-exit_price :
    (now : ℕ) (exit : Option ℤ) (actual : ℤ) (p : Option PendingForceSettleConfig)
    (o : SettleTransactionOptions) (t : TransactionLog)
    → (settled_row now exit actual p o t).exit_price ≡ exit
unfolding settled_row
settled_row-exit_price now exit actual p o t = refl

resolve_preset :
    (c : PendingForceSettleConfig) (exit : ℤ) (market : Option ℤ)
    → resolve_exit_price (some c) (some exit) market ≡ ok (get_or c.exit_price (some exit))
unfolding resolve_exit_price
resolve_preset c exit market = elim (Option-cases c.exit_price) [
  | inl missing ↦ rw missing refl
  | inr (p, given) ↦ rw given refl
]

-- What the preset leaves.
record Preset (json : Json) (now order : ℕ) (params : ForceSettleParams)
    (r : TransactionLog × Database) : Type 0 where
  found : find_unique order_key order r.1.transaction_logs ≡ some r.0
  live : is_canceled r.0.status ≡ false
  reason :
      r.0.manual_adjustment_reason
      ≡ some (build_pending_force_settle_reason json (pending_config now params))

force_settle_transaction-Preset :
    (json : Json) (now order : ℕ) (params : ForceSettleParams) (db : Database)
    (r : TransactionLog × Database)
    → force_settle_transaction json now order params db ≡ ok r
    → Preset json now order params r
unfolding force_settle_transaction force_settled_row
force_settle_transaction-Preset json now order params db r h =
    elim (Option-cases (find_unique order_key order db.transaction_logs)) [
      | inl missing ↦ absurd (ground arith)
      | inr (t, found) ↦ elim (Bool-cases (is_canceled t.status)) [
        | inl canceled ↦ absurd (ground arith)
        | inr live ↦ elim (Bool-cases (is_settled t.status)) [
          | inl settled ↦ absurd (ground arith)
          | inr unsettled ↦
              let row = force_settled_row json now params t in
              let e : r ≡ (
                row,
                record db {
                  transaction_logs = update order_key order (λ _. row) db.transaction_logs;
                },
              ) =
                ground arith in
              rw e (record {
                found =
                    find-update_self order_key order (λ _. row) db.transaction_logs t found
                      (key_of_found order_key order db.transaction_logs t found);
                live = live;
                reason = refl;
              })
        ]
      ]
    ]

-- The settlement that a preset decides, at the price that it names or else at the caller's.
pub record IsForced (w : ForcedResult) (price : Option ℤ) (t t' : TransactionLog) : Type 0 where
  pub settled : t'.status ≡ TransactionStatus.settled
  pub return : t'.actual_return ≡ actual_return_of (is_forced_win w) t.invest_amount t.return_rate
  pub price_used : t'.exit_price ≡ price

final_row-IsForced :
    (now : ℕ) (price : Option ℤ) (c : PendingForceSettleConfig) (w : ForcedResult)
    (o : SettleTransactionOptions) (t : TransactionLog)
    → c.result ≡ some w
    → o.forced_result ≡ none
    → IsForced w price t (final_row now price (some c) o t)
final_row-IsForced now price c w o t decided free =
    let done = final_row-IsSettledFrom now price (some c) o t in
    let actual = settlement_return price (some c) o t in
    record {
      settled = done.status;
      return =
          done.actual_return
          ∙ ap (λ f. actual_return_of (is_win f t price) t.invest_amount t.return_rate)
              (ap (λ x. or_else x c.result) free ∙ decided)
          ∙ ap (λ b. actual_return_of b t.invest_amount t.return_rate) (is_win_forced w t price);
      price_used =
          with_settled_balance-exit_price t.entry_account_balance actual
            (settled_row now price actual (some c) o t)
          ∙ settled_row-exit_price now price actual (some c) o t;
    }

-- After an administrator's preset of a result that goes through, a settlement with a price and no
-- forced result of its own goes through, whatever the market gives. It pays by the preset result, a
-- win or a loss, and at the preset price, also where that is `null`, or else at the price that it was
-- called with.
pub force_settle-settle :
    (json : Json) (now order : ℕ) (params : ForceSettleParams) (w : ForcedResult) (db : Database)
    (r : TransactionLog × Database)
    → force_settle_transaction json now order params db ≡ ok r
    → params.result ≡ some w
    → (later : ℕ) (market : Option ℤ) (exit : ℤ) (o : SettleTransactionOptions)
    → o.forced_result ≡ none
    → (r' : TransactionLog × Database) × (settle_transaction_by_system json later market order
          (some exit)
          o
          r.1
        ≡ ok r')
      × IsForced w (get_or params.exit_price (some exit)) r.0 r'.0
unfolding settle_transaction_by_system apply_settlement
force_settle-settle json now order params w db r h decided later market exit o free =
    let c = force_settle_transaction-Preset json now order params db r h in
    let config = pending_config now params in
    let price = get_or params.exit_price (some exit) in
    let found = c.found in
    let live = c.live in
    let read : parse_pending_force_settle_reason json r.0.manual_adjustment_reason ≡ some config =
      ap (parse_pending_force_settle_reason json) c.reason
      ∙ parse-build json config params.operator_id refl in
    (
      apply_settlement later price (some config) o r.0 r.1,
      rw (found, live, read, resolve_preset config exit market) refl,
      final_row-IsForced later price config w o r.0 decided free,
    )
