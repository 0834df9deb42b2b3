-- ===== src/Funding/Pooled.antt =====
-- The theorems on the accounts of the pool at a concrete deposit and its approval.
use crypto_sim_backend.Common.{
  ◌≡◌, refl, pos, ◌+ℤ◌, ◌-ℤ◌, true, [], ◌∷◌, none, some, text, ok, trim, trim_start,
}
use crypto_sim_backend.Samples.{alice}
use crypto_sim_backend.Database.{Database, FundingRecord, FundingType, FundingNetwork}
use crypto_sim_backend.Deposits.Patterns.{matches_address, is_base58}
use crypto_sim_backend.Deposits.Release.{consume}
use crypto_sim_backend.Deposits.Review.{Outcome, consume_allocation, apply_review_outcome}
use crypto_sim_backend.Deposits.Accounts.{IsAccounted}
use crypto_sim_backend.Deposits.Tests.{
  pool_address, reservation, pooled, pooled-IsAccounted, pooled-IsKeyed,
}
use crypto_sim_backend.Funding.Requests.{
  CreateDepositDto, request_row, create_deposit, insert_deposit,
}
use crypto_sim_backend.Funding.Reviews.{
  ReviewFundingRecordDto, review_record, review_record_in_transaction, reviewed_row, ledger_row,
  set_real_balance,
}
use crypto_sim_backend.Funding.Accounts.{IsPool}
use crypto_sim_backend.Funding.Accounts.Deposited.{create_deposit-IsAccounted}
use crypto_sim_backend.Funding.Accounts.Reviewed.{review_record-IsAccounted}

abbrev request : CreateDepositDto
request = record {
  currency = text "USDT";
  original_amount = some (pos 300);
  converted_amount = some (pos 300);
  network = text "TRC20";
  tx_hash = some (text " ab ");
  to_address = pool_address.address;
  remark = none;
}

abbrev deposit : FundingRecord
deposit =
    request_row 7 1 FundingType.deposit 300 (text "USDT") 300 FundingNetwork.trc20
      (some (text "ab")) pool_address.address none

abbrev deposited : Database
deposited = record pooled {
  funding_records = deposit ∷ [];
  deposit_allocations = consume reservation ∷ [];
}

deposited_lem : create_deposit 900 7 1 request pooled ≡ ok (deposit, deposited)
unfolding create_deposit insert_deposit consume_allocation matches_address is_base58 trim trim_start
deposited_lem = refl

pooled-IsPool : IsPool pooled.deposit_addresses
pooled-IsPool = ((refl, refl), tt)

create_deposit-IsAccounted_example : IsAccounted deposited
create_deposit-IsAccounted_example =
    create_deposit-IsAccounted 900 7 1 request pooled (deposit, deposited) deposited_lem
      pooled-IsPool pooled-IsKeyed pooled-IsAccounted

abbrev approval : ReviewFundingRecordDto
approval = record { action = text "approve"; apply_balance = none; review_note = none }

abbrev approved_row : FundingRecord
approved_row = reviewed_row 950 9 approval Outcome.approve true (pos 1000) deposit

abbrev approved : Database
approved = record deposited {
  funding_records = approved_row ∷ [];
  users = set_real_balance (pos 1300) alice ∷ [];
  balance_ledgers = ledger_row 9 (pos 1000) deposit ∷ [];
  deposit_addresses = record pool_address { pending_amount = pos 0; used_amount = pos 300 } ∷ [];
}

approved_lem : review_record 950 7 approval 9 deposited ≡ ok (approved_row, approved)
unfolding review_record review_record_in_transaction apply_review_outcome ◌+ℤ◌ ◌-ℤ◌
approved_lem = refl

review_record-IsAccounted_example : IsAccounted approved
review_record-IsAccounted_example =
    review_record-IsAccounted 950 7 approval 9 deposited (approved_row, approved) approved_lem
      pooled-IsPool create_deposit-IsAccounted_example
