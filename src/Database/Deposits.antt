-- ===== src/Database/Deposits.antt =====
-- The `DepositAddress` and `DepositAllocation` rows.
use crypto_sim_backend.Common.{ℕ, ℤ, Bool, true, false, Option, Text}
use crypto_sim_backend.Database.Fundings.{FundingNetwork}

pub data DepositAddressRisk : Type 0 where
  unknown safe risky : DepositAddressRisk

-- `used_amount` and `pending_amount` are counters that the service moves up and down.
pub record DepositAddress : Type 0 where
  pub id : ℕ
  pub network : FundingNetwork
  pub address : Text
  pub qr_code_url : Text
  pub min_amount : ℕ
  pub max_amount : Option ℕ
  pub capacity : Option ℕ
  pub used_amount : ℤ
  pub pending_amount : ℤ
  pub enabled : Bool
  pub risk_status : DepositAddressRisk
  pub sort_order : ℕ
  pub created_at : ℕ

abbrev pub address_key : DepositAddress → ℕ
address_key a = a.id

abbrev pub is_risky : DepositAddressRisk → Bool
is_risky DepositAddressRisk.risky = true
is_risky DepositAddressRisk.unknown = false
is_risky DepositAddressRisk.safe = false

pub record DepositAllocation : Type 0 where
  pub id : ℕ
  pub address_id : ℕ
  pub user_id : ℕ
  pub amount : ℕ
  pub expires_at : ℕ
  pub consumed : Bool

abbrev pub allocation_key : DepositAllocation → ℕ
allocation_key a = a.id
