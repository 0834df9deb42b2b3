-- ===== src/Funding/Reviews.antt =====
-- `reviewRecord`: one serializable transaction, so what it reads does not change before it writes.
use crypto_sim_backend.Common.{
  ℕ, ℤ, pos, neg_ℕ, ◌+ℤ◌, ltb_ℤ, if◌then◌else◌, Bool, true, false, not, ◌&&◌, ◌∷◌, Option, none,
  some, get_or, Text, text, Result, ok, ◌>>=◌, ◌>>◌, throw_if, or_throw,
}
use crypto_sim_backend.Common.Table.{find_unique, update}
use crypto_sim_backend.Database.{
  Database, User, user_id, AccountType, BalanceLedger, FundingRecord, record_key, FundingType,
  FundingStatus, is_deposit, is_open,
}
use crypto_sim_backend.Deposits.Review.{Outcome, apply_review_outcome}
use crypto_sim_backend.Funding.Checks.{FundingError, normalize_optional_text, parse_review_action}

pub record ReviewFundingRecordDto : Type 0 where
  pub action : Text
  pub apply_balance : Option Bool
  pub review_note : Option Text

abbrev pub should_apply_balance : Outcome → ReviewFundingRecordDto → Bool
should_apply_balance Outcome.approve dto = get_or dto.apply_balance true
should_apply_balance Outcome.reject dto = false

abbrev pub is_reject : Outcome → Bool
is_reject Outcome.approve = false
is_reject Outcome.reject = true

abbrev pub next_status : Outcome → FundingStatus
next_status Outcome.approve = FundingStatus.completed
next_status Outcome.reject = FundingStatus.failed

abbrev pub delta_of : FundingType → ℕ → ℤ
delta_of FundingType.deposit n = pos n
delta_of FundingType.withdraw n = neg_ℕ n

abbrev pub reviewed_row :
    ℕ → ℕ → ReviewFundingRecordDto → Outcome → Bool → ℤ → FundingRecord → FundingRecord
reviewed_row now reviewer dto action applies before r = record r {
  status = next_status action;
  review_note = normalize_optional_text dto.review_note;
  reviewed_at = some now;
  reviewed_by = some reviewer;
  balance_applied = applies;
  before_real_balance = if applies then some before else none;
  after_real_balance = if applies then some (before +ℤ delta_of r.type r.amount) else none;
}

abbrev pub ledger_row : ℕ → ℤ → FundingRecord → BalanceLedger
ledger_row reviewer before r = record {
  user_id = r.user_id;
  account_type = AccountType.real;
  delta = delta_of r.type r.amount;
  before_balance = before;
  after_balance = before +ℤ delta_of r.type r.amount;
  reference_id = r.id;
  reference_type = text "funding_review";
  operator_id = some reviewer;
}

abbrev pub set_real_balance : ℤ → User → User
set_real_balance b u = record u { real_balance = b }

-- The writes of the balance and of its ledger.
abbrev pub apply_balance : Bool → ℕ → ℤ → FundingRecord → Database → Database
apply_balance false reviewer before r db = db
apply_balance true reviewer before r db = record db {
  users = update user_id r.user_id (set_real_balance (before +ℤ delta_of r.type r.amount)) db.users;
  balance_ledgers = ledger_row reviewer before r ∷ db.balance_ledgers;
}

abbrev pub apply_to_pool : FundingRecord → Outcome → Database → Database
apply_to_pool r action db =
    if is_deposit r.type then apply_review_outcome r.to_address r.amount action db else db

unfoldable pub review_record_in_transaction :
    ℕ
    → ℕ
    → ReviewFundingRecordDto
    → ℕ
    → Outcome
    → Bool
    → Database
    → Result FundingError (FundingRecord × Database)
review_record_in_transaction now id dto reviewer action applies db = do
  r ← or_throw (find_unique record_key id db.funding_records) FundingError.record_not_found
  u ← or_throw (find_unique user_id r.user_id db.users) FundingError.user_not_found
  throw_if (not (is_open r.status)) FundingError.already_reviewed
  throw_if (applies && not (is_deposit r.type) && ltb_ℤ u.real_balance (pos r.amount))
      FundingError.insufficient_real_balance
  let row = reviewed_row now reviewer dto action applies u.real_balance r
  let written = record db { funding_records = update record_key id (λ _. row) db.funding_records }
  ok (row, apply_to_pool r action (apply_balance applies reviewer u.real_balance r written))

unfoldable pub review_record :
    ℕ → ℕ → ReviewFundingRecordDto → ℕ → Database → Result FundingError (FundingRecord × Database)
review_record now id dto reviewer db = do
  action ← parse_review_action dto.action
  throw_if (is_reject action && get_or dto.apply_balance false) FundingError.balance_not_applicable
  review_record_in_transaction now id dto reviewer action (should_apply_balance action dto) db
