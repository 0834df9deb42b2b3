-- ===== src/Deposits/Tests.antt =====
-- A pool of one address, and the theorems on its accounts at concrete calls.
use mathlib.Core.Path.{subst}
use crypto_sim_backend.Common.{
  All, ◌≡◌, refl, pos, ◌+ℤ◌, ◌-ℤ◌, true, false, [], ◌∷◌, some, text, ok, ◌==◌, Bool-cases, inl, inr,
  arith,
}
use crypto_sim_backend.Samples.{start}
use crypto_sim_backend.Database.{
  Database, DepositAddress, DepositAddressRisk, DepositAllocation, FundingNetwork,
}
use crypto_sim_backend.Deposits.Allocate.{
  fitting, allocate_for_user, allocate_at, is_candidate, first_sorted, is_used, goes_before,
}
use crypto_sim_backend.Deposits.Release.{release_expired_allocations}
use crypto_sim_backend.Deposits.Fitting.{Any, Fits, Uses}
use crypto_sim_backend.Deposits.Picking.{Precedes, allocate_for_user-picks}
use crypto_sim_backend.Deposits.Accounts.{outstanding, IsAccounted}
use crypto_sim_backend.Deposits.Accounts.Reserving.{allocate_for_user-IsAccounted}
use crypto_sim_backend.Deposits.Accounts.Releasing.{
  IsKeyed, release_expired_allocations-IsAccounted,
}

abbrev pub pool_address : DepositAddress
pool_address = record {
  id = 1;
  network = FundingNetwork.trc20;
  address = text "TAAAAAAAAAAAAAAAAAAAAAAAAAAAAAAAAA";
  qr_code_url = [];
  min_amount = 10;
  max_amount = some 5000;
  capacity = some 9000;
  used_amount = pos 0;
  pending_amount = pos 300;
  enabled = true;
  risk_status = DepositAddressRisk.safe;
  sort_order = 0;
  created_at = 0;
}

abbrev pub reservation : DepositAllocation
reservation = record {
  id = 5;
  address_id = 1;
  user_id = 1;
  amount = 300;
  expires_at = 1000;
  consumed = false;
}

abbrev pub pooled : Database
pooled = record start {
  deposit_addresses = pool_address ∷ [];
  deposit_allocations = reservation ∷ [];
}

pub pooled-IsAccounted : IsAccounted pooled
unfolding ◌+ℤ◌
pooled-IsAccounted k a found = elim (Bool-cases (1 == k)) [
  | inr miss ↦ absurd (ground arith)
  | inl hit ↦
      let same : pool_address ≡ a = ground arith in
      subst (λ x. x.pending_amount ≡ outstanding x pooled) same refl
]

pub pooled-IsKeyed : IsKeyed pooled.deposit_allocations
pooled-IsKeyed = (refl, tt)

allocation_lem :
    allocate_for_user 900 6 2 200 FundingNetwork.trc20 pooled
    ≡ ok (pool_address, allocate_at 900 6 2 200 pool_address pooled)
unfolding allocate_for_user is_candidate first_sorted is_used goes_before ◌-ℤ◌
allocation_lem = refl

allocate_for_user-IsAccounted_example : IsAccounted (allocate_at 900 6 2 200 pool_address pooled)
allocate_for_user-IsAccounted_example =
    allocate_for_user-IsAccounted 900 6 2 200 FundingNetwork.trc20 pooled
      (pool_address, allocate_at 900 6 2 200 pool_address pooled) allocation_lem pooled-IsAccounted

release_expired_allocations-IsAccounted_example :
    IsAccounted (release_expired_allocations 2000 pooled).1
release_expired_allocations-IsAccounted_example =
    release_expired_allocations-IsAccounted 2000 pooled pooled-IsKeyed pooled-IsAccounted

allocate_for_user-picks_example :
    Any (λ y. y ≡ pool_address) pooled.deposit_addresses
    × Fits 200 FundingNetwork.trc20 pool_address
    × All
        (λ b.
          Fits 200 FundingNetwork.trc20 b
          → Precedes
              (Uses 900 2 (fitting 200 FundingNetwork.trc20 pooled.deposit_addresses) pooled)
              pool_address
              b)
        pooled.deposit_addresses
allocate_for_user-picks_example =
    allocate_for_user-picks 900 6 2 200 FundingNetwork.trc20 pooled
      (pool_address, allocate_at 900 6 2 200 pool_address pooled) allocation_lem
