-- ===== src/Deposits/Accounts.antt =====
-- What the pending amount of an address stands for: the reservations that are not consumed and the
-- deposits that wait for their review.
pub mod Reserving
pub mod Decrements
pub mod Releasing
use mathlib.Core.Path.{subst}
use crypto_sim_backend.Common.{
  ℕ, ◌≡◌, ◌≢◌, refl, sym, ap, ◌∙◌, ℤ, pos, ◌+ℤ◌, int_laws, pos_part, neg_part, Bool, true, false,
  not, ◌&&◌, ◌==◌, text_eq, List, [], ◌∷◌, Option, none, some, sum, Text, if◌then◌else◌, Bool-cases,
  Option-cases, inl, inr, arith,
}
use crypto_sim_backend.Common.Table.{
  find_unique, update, find-update_self, find-update_ne, update_missing, key_of_found,
}
use crypto_sim_backend.Database.{
  Database, DepositAddress, address_key, DepositAllocation, FundingRecord, is_deposit, is_open,
}
use crypto_sim_backend.Deposits.Allocate.{goes_to}

abbrev pub reserved : ℕ → DepositAllocation → ℤ
reserved k l = if not l.consumed && (l.address_id == k) then pos l.amount else pos 0

abbrev pub is_to : Text → Option Text → Bool
is_to s none = false
is_to s (some t) = text_eq t s

-- A deposit to the address `s` that is still open.
abbrev pub awaiting : Text → FundingRecord → ℤ
awaiting s r =
    if is_deposit r.type && is_open r.status && is_to s r.to_address then pos r.amount else pos 0

abbrev pub outstanding : DepositAddress → Database → ℤ
outstanding a db =
    sum (reserved a.id) db.deposit_allocations +ℤ sum (awaiting a.address) db.funding_records

-- Every address of the pool has pending what is reserved at it and what awaits a review.
abbrev pub IsAccounted : Database → Type 0
IsAccounted db =
    (k : ℕ) (a : DepositAddress)
    → find_unique address_key k db.deposit_addresses ≡ some a
    → a.pending_amount ≡ outstanding a db

-- A write of one address keeps the accounts, if its pending amount moves as what is outstanding at
-- it does, and nothing moves at the other addresses.
pub IsAccounted-write :
    (db db' : Database) (j : ℕ) (g : DepositAddress → DepositAddress)
    → db'.deposit_addresses ≡ update address_key j g db.deposit_addresses
    → ((v : DepositAddress) → (g v).id ≡ v.id)
    → ((a : DepositAddress)
        → find_unique address_key j db.deposit_addresses ≡ some a
        → a.pending_amount ≡ outstanding a db
        → (g a).pending_amount ≡ outstanding (g a) db')
    → ((k : ℕ) (a : DepositAddress)
        → k ≢ j
        → find_unique address_key k db.deposit_addresses ≡ some a
        → outstanding a db' ≡ outstanding a db)
    → IsAccounted db
    → IsAccounted db'
IsAccounted-write db db' j g wrote same here there acc k a found =
    let found' : find_unique address_key k (update address_key j g db.deposit_addresses) ≡ some a =
      ap (find_unique address_key k) (sym wrote) ∙ found in
    elim (Bool-cases (k == j)) [
      | inr miss ↦
          let ne : k ≢ j = ground arith in
          let old = sym (find-update_ne address_key k j g db.deposit_addresses ne same) ∙ found' in
          acc k a old ∙ sym (there k a ne old)
      | inl hit ↦
          let e : k ≡ j = ground arith in
          let at_j : find_unique address_key j (update address_key j g db.deposit_addresses)
              ≡ some a =
            subst
              (λ i.
                find_unique address_key i (update address_key j g db.deposit_addresses) ≡ some a)
              e found' in
          elim (Option-cases (find_unique address_key j db.deposit_addresses)) [
            | inl missing ↦ absurd (
                let gone = update_missing address_key j g db.deposit_addresses missing in
                ground (arith, gone, at_j, missing))
            | inr (b, old) ↦
                let self =
                  find-update_self address_key j g db.deposit_addresses b old
                    (same b ∙ key_of_found address_key j db.deposit_addresses b old) in
                let is_g : g b ≡ a = ground (arith, self, at_j) in
                subst (λ x. x.pending_amount ≡ outstanding x db') is_g (here b old (acc j b old))
          ]
    ]
