-- ===== src/Database/Fundings.antt =====
-- The `FundingRecord` and `BalanceLedger` rows.
use crypto_sim_backend.Common.{ℕ, ℤ, Bool, true, false, Option, Text}
use crypto_sim_backend.Database.Users.{AccountType}

pub data FundingType : Type 0 where
  deposit withdraw : FundingType

pub data FundingStatus : Type 0 where
  pending completed failed : FundingStatus

pub data FundingNetwork : Type 0 where
  trc20 erc20 btc : FundingNetwork

pub record FundingRecord : Type 0 where
  pub id : ℕ
  pub user_id : ℕ
  pub type : FundingType
  pub status : FundingStatus
  pub amount : ℕ
  pub network : FundingNetwork
  pub tx_hash : Option Text
  pub to_address : Option Text
  pub edited_to_address : Option Text
  pub remark : Option Text
  pub review_note : Option Text
  pub reviewed_at : Option ℕ
  pub reviewed_by : Option ℕ
  pub currency : Option Text
  pub original_amount : Option ℕ
  pub converted_amount : Option ℕ
  pub balance_applied : Bool
  pub before_real_balance : Option ℤ
  pub after_real_balance : Option ℤ

abbrev pub record_key : FundingRecord → ℕ
record_key r = r.id

pub record BalanceLedger : Type 0 where
  pub user_id : ℕ
  pub account_type : AccountType
  pub delta : ℤ
  pub before_balance : ℤ
  pub after_balance : ℤ
  pub reference_id : ℕ
  pub reference_type : Text
  pub operator_id : Option ℕ

abbrev pub is_deposit : FundingType → Bool
is_deposit FundingType.deposit = true
is_deposit FundingType.withdraw = false

abbrev pub is_open : FundingStatus → Bool
is_open FundingStatus.pending = true
is_open FundingStatus.completed = false
is_open FundingStatus.failed = false

abbrev pub same_network : FundingNetwork → FundingNetwork → Bool
same_network FundingNetwork.trc20 FundingNetwork.trc20 = true
same_network FundingNetwork.erc20 FundingNetwork.erc20 = true
same_network FundingNetwork.btc FundingNetwork.btc = true
same_network _ _ = false
