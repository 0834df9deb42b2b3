-- ===== src/Funding/Accounts/Deposited.antt =====
-- `createDeposit` keeps the accounts of the pool.
use mathlib.Core.Path.{subst}
use crypto_sim_backend.Common.{
  ℕ, ◌≡◌, ◌≢◌, refl, sym, ap, ◌∙◌, ℤ, pos, ◌+ℤ◌, int_laws, pos_part, neg_part, true, false, not,
  ◌==◌, ◌∷◌, some, any, sum, find?, find?-passes, Text, text_eq, text_eq_refl, trim, Bool-cases,
  Option-cases, Result-cases, inl, inr, arith, ok, ◌>>=◌, ◌>>◌, throw_if,
}
use crypto_sim_backend.Common.Table.{find_unique, update, key_of_found, sum-update}
use crypto_sim_backend.Database.{
  Database, DepositAddress, address_key, DepositAllocation, allocation_key, FundingRecord,
  FundingNetwork, FundingType, is_deposit, is_open,
}
use crypto_sim_backend.Deposits.Addresses.{find_by_address}
use crypto_sim_backend.Deposits.Release.{consume}
use crypto_sim_backend.Deposits.Review.{is_matching, consume_allocation}
use crypto_sim_backend.Deposits.Accounts.{reserved, awaiting, IsAccounted}
use crypto_sim_backend.Deposits.Accounts.Releasing.{IsKeyed}
use crypto_sim_backend.Funding.Checks.{
  FundingError, ensure_valid_amount, ensure_supported_network, ensure_currency_network_match,
  ensure_address_for_network, normalize_optional_text, normalize_tx_hash,
}
use crypto_sim_backend.Funding.Requests.{
  CreateDepositDto, has_hash, request_row, check_pool_address, insert_deposit, create_deposit,
}
use crypto_sim_backend.Funding.Accounts.{IsPool, All-find?, at_address, not_at_address}

passes_on : (p r r' w : ℤ) (n : ℕ) → r' +ℤ pos n ≡ r +ℤ pos 0 → p ≡ r +ℤ w → p ≡ r' +ℤ (pos n +ℤ w)
passes_on p r r' w n e f =
    omega (int_laws, ap pos_part e, ap neg_part e, ap pos_part f, ap neg_part f)

-- The amount leaves the reservations and joins the open deposits.
record Deposits (now uid : ℕ) (row : FundingRecord) (address : Text) (amount : ℕ)
    (db db' : Database) : Type 0 where
  a : DepositAddress
  at_address : find_by_address address db.deposit_addresses ≡ some a
  l : DepositAllocation
  matching : find? (is_matching now uid a.id amount) db.deposit_allocations ≡ some l
  applied : db' ≡ record db {
    funding_records = row ∷ db.funding_records;
    deposit_allocations = update allocation_key l.id consume db.deposit_allocations;
  }

insert_deposit-Deposits :
    (now : ℕ) (row : FundingRecord) (uid : ℕ) (address : Text) (amount : ℕ) (db : Database)
    (r : FundingRecord × Database)
    → insert_deposit now row uid address amount db ≡ ok r
    → Deposits now uid row address amount db r.1
unfolding insert_deposit consume_allocation
insert_deposit-Deposits now row uid address amount db r h =
    elim (Option-cases (find_by_address address db.deposit_addresses)) [
      | inl missing ↦ absurd (ground arith)
      | inr (a, at_s) ↦
          elim (Option-cases (find? (is_matching now uid a.id amount) db.deposit_allocations)) [
            | inl missing ↦ absurd (ground arith)
            | inr (l, matching) ↦ record {
              a = a;
              at_address = at_s;
              l = l;
              matching = matching;
              applied = ground arith;
            }
          ]
    ]

abbrev CreatedDeposit : ℕ → ℕ → Database → Database → Type 0
CreatedDeposit now uid db db' =
    (row : FundingRecord) × (address : Text) × (amount : ℕ) × (is_deposit row.type ≡ true)
    × (is_open row.status ≡ true)
    × (row.to_address ≡ some address)
    × (row.amount ≡ amount)
    × Deposits now uid row address amount db db'

-- After the checks of the amounts and the network.
checked_deposit :
    (now id uid : ℕ) (dto : CreateDepositDto) (db : Database) (r : FundingRecord × Database)
    (amount original : ℕ) (network : FundingNetwork)
    → (do
      ensure_currency_network_match dto.currency network
      ensure_address_for_network dto.to_address network
      hash ← normalize_tx_hash dto.tx_hash
      throw_if (any (has_hash network hash) db.funding_records) FundingError.duplicate_tx_hash
      check_pool_address network (find_by_address (trim dto.to_address) db.deposit_addresses)
      insert_deposit now
          (request_row id uid FundingType.deposit amount dto.currency original network
            (some hash)
            (trim dto.to_address)
            (normalize_optional_text dto.remark))
          uid
          (trim dto.to_address)
          amount
          db)
      ≡ ok r
    → CreatedDeposit now uid db r.1
checked_deposit now id uid dto db r amount original network h =
    let s = trim dto.to_address in
    elim (Result-cases (ensure_currency_network_match dto.currency network)) [
      | inr (e, bad) ↦ absurd (ground arith)
      | inl (u, matched) ↦ elim (Result-cases (ensure_address_for_network dto.to_address network)) [
        | inr (e, bad) ↦ absurd (ground arith)
        | inl (v, formed) ↦ elim (Result-cases (normalize_tx_hash dto.tx_hash)) [
          | inr (e, bad) ↦ absurd (ground arith)
          | inl (hash, hashed) ↦
              elim (Bool-cases (any (has_hash network hash) db.funding_records)) [
                | inl taken ↦ absurd (ground arith)
                | inr fresh ↦
                    elim (Result-cases
                      (check_pool_address network (find_by_address s db.deposit_addresses))) [
                        | inr (e, bad) ↦ absurd (ground arith)
                        | inl (w, pooled) ↦
                            let row =
                              request_row id uid FundingType.deposit amount dto.currency original
                                network (some hash) s (normalize_optional_text dto.remark) in
                            (
                              row,
                              s,
                              amount,
                              refl,
                              refl,
                              refl,
                              refl,
                              insert_deposit-Deposits now row uid s amount db r
                                  (rw (matched, formed, hashed, fresh, pooled) at h),
                            )
                      ]
              ]
        ]
      ]
    ]

create_deposit-Deposits :
    (now id uid : ℕ) (dto : CreateDepositDto) (db : Database) (r : FundingRecord × Database)
    → create_deposit now id uid dto db ≡ ok r
    → CreatedDeposit now uid db r.1
unfolding create_deposit
create_deposit-Deposits now id uid dto db r h =
    elim (Result-cases (ensure_valid_amount dto.converted_amount)) [
      | inr (e, bad) ↦ absurd (ground arith)
      | inl (amount, converted) ↦ elim (Result-cases (ensure_valid_amount dto.original_amount)) [
        | inr (e, bad) ↦ absurd (ground arith)
        | inl (original, given) ↦ elim (Result-cases (ensure_supported_network dto.network)) [
          | inr (e, bad) ↦ absurd (ground arith)
          | inl (network, known) ↦
              checked_deposit now id uid dto db r amount original network
                (rw (converted, given, known) at h)
        ]
      ]
    ]

module _ (now uid : ℕ) (row : FundingRecord) (s : Text) (amount : ℕ) (db db' : Database)
    (deposited : is_deposit row.type ≡ true) (live : is_open row.status ≡ true)
    (given : row.to_address ≡ some s) (worth : row.amount ≡ amount)
    (c : Deposits now uid row s amount db db') where
  reserved_moves :
      (k : ℕ)
      → IsKeyed db.deposit_allocations
      → sum (reserved k) (update allocation_key c.l.id consume db.deposit_allocations)
          +ℤ reserved k c.l
        ≡ sum (reserved k) db.deposit_allocations +ℤ pos 0
  reserved_moves k keyed =
      sum-update allocation_key (reserved k) c.l.id consume db.deposit_allocations c.l (
        All-find? (λ l. find_unique allocation_key l.id db.deposit_allocations ≡ some l)
          (is_matching now uid c.a.id amount) db.deposit_allocations c.l keyed c.matching)

  reserved_here :
      (not c.l.consumed ≡ true) × ((c.l.address_id == c.a.id) ≡ true) × (c.l.amount ≡ amount)
  reserved_here =
      let m =
        find?-passes (is_matching now uid c.a.id amount) db.deposit_allocations c.l c.matching in
      (ground (arith, m), ground (arith, m), ground (arith, m))

  Deposits-IsAccounted :
      IsPool db.deposit_addresses
      → IsKeyed db.deposit_allocations
      → IsAccounted db
      → IsAccounted db'
  Deposits-IsAccounted pool keyed acc = rw c.applied (λ k b found.
      let (is_s, at_id) = at_address s db.deposit_addresses c.a c.at_address pool in
      let is_k = key_of_found address_key k db.deposit_addresses b found in
      let rs = sum (reserved b.id) db.deposit_allocations in
      let rs' = sum (reserved b.id) (update allocation_key c.l.id consume db.deposit_allocations) in
      let w = sum (awaiting b.address) db.funding_records in
      let moves = reserved_moves b.id keyed in
      let (fresh, here, sized) = reserved_here in
      elim (Bool-cases (c.a.id == k)) [
        | inl hit ↦
            let e : c.a.id ≡ k = ground arith in
            let at_b =
              subst (λ i. find_unique address_key i db.deposit_addresses ≡ some b) (sym e) found in
            let same : c.a ≡ b = ground (arith, at_id, at_b) in
            let id_same : b.id ≡ c.a.id = ap (λ x. x.id) (sym same) in
            let matches : text_eq s b.address ≡ true =
              ap (λ t. text_eq s t) (ap (λ x. x.address) (sym same) ∙ is_s) ∙ text_eq_refl s in
            let counted : reserved b.id c.l ≡ pos amount = rw (fresh, id_same, here, sized) refl in
            let waits : awaiting b.address row ≡ pos amount =
              rw (deposited, live, given, matches, worth) refl in
            rw waits (
              passes_on b.pending_amount rs rs' w amount (ap (λ x. rs' +ℤ x) (sym counted) ∙ moves)
                (acc k b found))
        | inr miss ↦
            let ne : k ≢ c.a.id = ground arith in
            let differs = not_at_address s db.deposit_addresses k b pool found (λ a at_s e.
              let same : c.a ≡ a = ground (arith, at_s, c.at_address) in
              ne (e ∙ ap (λ x. x.id) (sym same))) in
            let l_at : c.l.address_id ≡ c.a.id = ground (arith, here) in
            let elsewhere : (c.l.address_id == b.id) ≡ false = ground (arith, l_at, ne, is_k) in
            let counted : reserved b.id c.l ≡ pos 0 = rw (elsewhere, fresh) refl in
            let waits : awaiting b.address row ≡ pos 0 =
              rw (deposited, live, given, differs) refl in
            rw waits (
              passes_on b.pending_amount rs rs' w 0 (ap (λ x. rs' +ℤ x) (sym counted) ∙ moves)
                (acc k b found))
      ])

-- A deposit that goes through keeps the accounts of the pool, where the identifiers and the addresses
-- of the pool and the identifiers of the allocations are unique: the amount that the record adds to
-- the open deposits of its address is the one that it takes from the reservations.
pub create_deposit-IsAccounted :
    (now id uid : ℕ) (dto : CreateDepositDto) (db : Database) (r : FundingRecord × Database)
    → create_deposit now id uid dto db ≡ ok r
    → IsPool db.deposit_addresses
    → IsKeyed db.deposit_allocations
    → IsAccounted db
    → IsAccounted r.1
create_deposit-IsAccounted now id uid dto db r h pool keyed acc =
    let (row, s, amount, deposited, live, given, worth, c) =
      create_deposit-Deposits now id uid dto db r h in
    Deposits-IsAccounted now uid row s amount db r.1 deposited live given worth c pool keyed acc
