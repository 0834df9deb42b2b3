-- ===== src/Funding/Requests.antt =====
-- `createDeposit`, `createWithdraw` and `updateWithdrawAddress`. A new record stands at the front of
-- its table.
use crypto_sim_backend.Common.{
  ℕ, ℤ, pos, ltb_ℤ, if◌then◌else◌, Bool, false, not, ◌&&◌, ◌||◌, ◌∷◌, any, Option, none, some, Text,
  text_eq, trim, Result, ok, err, ◌>>=◌, ◌>>◌, throw_if, or_throw,
}
use crypto_sim_backend.Common.Table.{find_unique, update}
use crypto_sim_backend.Database.{
  Database, User, DepositAddress, is_risky, FundingRecord, record_key, FundingNetwork, FundingType,
  FundingStatus, is_deposit, is_open, same_network,
}
use crypto_sim_backend.Transactions.Create.{is_verified}
use crypto_sim_backend.Deposits.Addresses.{find_by_address}
use crypto_sim_backend.Deposits.Review.{consume_allocation}
use crypto_sim_backend.Funding.Checks.{
  FundingError, ensure_valid_amount, ensure_valid_withdraw_amount, ensure_supported_network,
  ensure_currency_network_match, ensure_address_for_network, normalize_optional_text,
  normalize_tx_hash,
}

pub record CreateDepositDto : Type 0 where
  pub currency : Text
  pub original_amount : Option ℤ
  pub converted_amount : Option ℤ
  pub network : Text
  pub tx_hash : Option Text
  pub to_address : Text
  pub remark : Option Text

pub record CreateWithdrawDto : Type 0 where
  pub currency : Text
  pub original_amount : Option ℤ
  pub converted_amount : Option ℤ
  pub network : Text
  pub to_address : Text
  pub remark : Option Text

abbrev pub has_hash : FundingNetwork → Text → FundingRecord → Bool
has_hash network hash r =
    same_network r.network network && elim r.tx_hash [ none ↦ false | some h ↦ text_eq h hash ]

abbrev pub request_row :
    ℕ
    → ℕ
    → FundingType
    → ℕ
    → Text
    → ℕ
    → FundingNetwork
    → Option Text
    → Text
    → Option Text
    → FundingRecord
request_row id uid type amount currency original network hash address remark = record {
  id = id;
  user_id = uid;
  type = type;
  status = FundingStatus.pending;
  amount = amount;
  network = network;
  tx_hash = hash;
  to_address = some address;
  edited_to_address = none;
  remark = remark;
  review_note = none;
  reviewed_at = none;
  reviewed_by = none;
  currency = some currency;
  original_amount = some original;
  converted_amount = some amount;
  balance_applied = false;
  before_real_balance = none;
  after_real_balance = none;
}

abbrev pub check_pool_address :
    FundingNetwork → Option DepositAddress → Result FundingError (Unit {0})
check_pool_address network none = err FundingError.invalid_deposit_address
check_pool_address network (some a) = do
  throw_if (not (same_network a.network network)) FundingError.invalid_deposit_address
  throw_if (not a.enabled || is_risky a.risk_status) FundingError.deposit_address_unavailable

-- The transaction: the record and the consumption of its reservation, both or neither.
unfoldable pub insert_deposit :
    ℕ → FundingRecord → ℕ → Text → ℕ → Database → Result FundingError (FundingRecord × Database)
insert_deposit now r uid address amount db =
    let (consumed, db') =
      consume_allocation now uid address amount
        (record db { funding_records = r ∷ db.funding_records }) in
    if consumed then ok (r, db') else err FundingError.deposit_allocation_expired

unfoldable pub create_deposit :
    ℕ → ℕ → ℕ → CreateDepositDto → Database → Result FundingError (FundingRecord × Database)
create_deposit now id uid dto db = do
  amount ← ensure_valid_amount dto.converted_amount
  original ← ensure_valid_amount dto.original_amount
  network ← ensure_supported_network dto.network
  ensure_currency_network_match dto.currency network
  ensure_address_for_network dto.to_address network
  hash ← normalize_tx_hash dto.tx_hash
  let remark = normalize_optional_text dto.remark
  let address = trim dto.to_address
  throw_if (any (has_hash network hash) db.funding_records) FundingError.duplicate_tx_hash
  check_pool_address network (find_by_address address db.deposit_addresses)
  insert_deposit now
      (request_row id uid FundingType.deposit amount dto.currency original network (some hash)
        address remark)
      uid address amount db

-- `user` is the row that the request was authenticated with.
unfoldable pub create_withdraw :
    ℕ → User → CreateWithdrawDto → Database → Result FundingError (FundingRecord × Database)
create_withdraw id user dto db = do
  amount ← ensure_valid_amount dto.converted_amount
  original ← ensure_valid_amount dto.original_amount
  network ← ensure_supported_network dto.network
  ensure_currency_network_match dto.currency network
  ensure_address_for_network dto.to_address network
  ensure_valid_withdraw_amount dto.converted_amount
  throw_if (not (is_verified user.verification_status)) FundingError.kyc_required
  throw_if (ltb_ℤ user.real_balance (pos amount)) FundingError.insufficient_balance
  let r =
      request_row id user.id FundingType.withdraw amount dto.currency original network none
        (trim dto.to_address) (normalize_optional_text dto.remark)
  ok (r, record db { funding_records = r ∷ db.funding_records })

unfoldable pub update_withdraw_address :
    ℕ → Text → Database → Result FundingError (FundingRecord × Database)
update_withdraw_address id to_address db = do
  let next = trim to_address
  r ← or_throw (find_unique record_key id db.funding_records) FundingError.record_not_found
  ensure_address_for_network next r.network
  throw_if (is_deposit r.type) FundingError.withdraw_only
  throw_if (not (is_open r.status)) FundingError.already_reviewed
  let row = record r { edited_to_address = some next }
  ok (row, record db { funding_records = update record_key id (λ _. row) db.funding_records })
