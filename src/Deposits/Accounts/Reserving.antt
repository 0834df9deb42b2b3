-- ===== src/Deposits/Accounts/Reserving.antt =====
-- `allocateForUser` keeps the accounts.
use crypto_sim_backend.Common.{
  ℕ, ◌≡◌, refl, ap, ℤ, pos, ◌+ℤ◌, int_laws, pos_part, neg_part, true, false, ◌==◌, sum,
  Option-cases, inl, inr, arith, ok,
}
use crypto_sim_backend.Common.Table.{key_of_found}
use crypto_sim_backend.Database.{Database, DepositAddress, address_key, FundingNetwork}
use crypto_sim_backend.Deposits.Allocate.{
  allocate_for_user, allocate_at, fitting, first_sorted, is_used, reserve,
}
use crypto_sim_backend.Deposits.Accounts.{reserved, awaiting, IsAccounted, IsAccounted-write}

gains : (p r w n : ℤ) → p ≡ r +ℤ w → p +ℤ n ≡ (n +ℤ r) +ℤ w
gains p r w n e = omega (int_laws, ap pos_part e, ap neg_part e)

gains_nothing : (r w : ℤ) → (pos 0 +ℤ r) +ℤ w ≡ r +ℤ w
gains_nothing r w = omega int_laws

pub allocate_at-IsAccounted :
    (now id uid amount : ℕ) (a : DepositAddress) (db : Database)
    → IsAccounted db
    → IsAccounted (allocate_at now id uid amount a db)
allocate_at-IsAccounted now id uid amount a db acc =
    IsAccounted-write db (allocate_at now id uid amount a db) a.id (reserve amount) refl (λ v. refl)
      (λ b found e.
        let at_b : (a.id == b.id) ≡ true =
          ground (arith, key_of_found address_key a.id db.deposit_addresses b found) in
        rw at_b (
          gains b.pending_amount (sum (reserved b.id) db.deposit_allocations)
            (sum (awaiting b.address) db.funding_records) (pos amount) e))
      (λ k b ne found.
        let at_b : (a.id == b.id) ≡ false =
          ground (arith, key_of_found address_key k db.deposit_addresses b found) in
        rw at_b (
          gains_nothing (sum (reserved b.id) db.deposit_allocations)
            (sum (awaiting b.address) db.funding_records)))
      acc

-- An allocation that goes through keeps the accounts of the pool: if every address has pending what
-- is reserved at it and what awaits a review, then so it is after the allocation.
pub allocate_for_user-IsAccounted :
    (now id uid amount : ℕ) (network : FundingNetwork) (db : Database)
    (r : DepositAddress × Database)
    → allocate_for_user now id uid amount network db ≡ ok r
    → IsAccounted db
    → IsAccounted r.1
unfolding allocate_for_user
allocate_for_user-IsAccounted now id uid amount network db r h acc =
    let fits = fitting amount network db.deposit_addresses in
    elim (Option-cases (first_sorted (is_used now uid fits db) fits)) [
      | inl none_left ↦ absurd (ground arith)
      | inr (a, picked) ↦
          let e : r.1 ≡ allocate_at now id uid amount a db = ground arith in
          rw e (allocate_at-IsAccounted now id uid amount a db acc)
    ]
