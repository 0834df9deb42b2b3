-- ===== src/Funding/Accounts.antt =====
-- Deposits and reviews keep the accounts of the pool of deposit addresses.
pub mod Reviewed
pub mod Deposited
use mathlib.Core.Path.{subst}
use crypto_sim_backend.Common.{
  ℕ, ◌+◌, ◌≡◌, ◌≢◌, refl, sym, ap, ◌∙◌, ℤ, pos, ◌+ℤ◌, ◌-ℤ◌, +ℤ-zero, int_laws, pos_part, neg_part,
  Bool, true, false, not, ◌&&◌, ◌==◌, List, [], ◌∷◌, Option, none, some, sum, find?, find?-passes,
  Text, text_eq, text_eq_refl, text_eq-eq, All, if◌then◌else◌, Bool-cases, Option-cases, inl, inr,
  arith, Result, ok,
}
use crypto_sim_backend.Common.Table.{find_unique, update, key_of_found, All-found, sum-update}
use crypto_sim_backend.Database.{
  Database, DepositAddress, address_key, FundingRecord, record_key, is_deposit, is_open,
}
use crypto_sim_backend.Deposits.Addresses.{find_by_address, has_address}
use crypto_sim_backend.Deposits.Review.{Outcome, settle_amount, outcome_at, apply_review_outcome}
use crypto_sim_backend.Deposits.Accounts.{
  reserved, is_to, awaiting, outstanding, IsAccounted, IsAccounted-write,
}
use crypto_sim_backend.Funding.Checks.{FundingError}
use crypto_sim_backend.Funding.Reviews.{
  ReviewFundingRecordDto, next_status, apply_balance, apply_to_pool, reviewed_row, review_record,
}
use crypto_sim_backend.Funding.Outcomes.{Reviews, review_record-Reviews}

-- Identifiers and addresses are unique in the pool: every row is the one found at either.
abbrev pub IsPool : List DepositAddress → Type 0
IsPool addresses =
    All
      (λ a.
        (find_unique address_key a.id addresses ≡ some a)
        × (find_by_address a.address addresses ≡ some a))
      addresses

pub All-find? {ℓ κ} :
    {A : Type ℓ} (P : A → Type κ) (p : A → Bool) (xs : List A) (x : A)
    → All P xs
    → find? p xs ≡ some x
    → P x
All-find? P p [] x a h = cc
All-find? P p (y ∷ xs) x a h = elim (Bool-cases (p y)) [
  | inl hit ↦ subst P (ground arith) a.0
  | inr miss ↦ All-find? P p xs x a.1 (rw miss at h)
]

module _ (s : Text) (addresses : List DepositAddress) where
  -- The row that an address finds, and that no other row has the address.
  pub at_address :
      (a : DepositAddress)
      → find_by_address s addresses ≡ some a
      → IsPool addresses
      → (a.address ≡ s) × (find_unique address_key a.id addresses ≡ some a)
  at_address a h pool = (
    text_eq-eq a.address s (find?-passes (has_address s) addresses a h),
    (All-find?
        (λ a.
          (find_unique address_key a.id addresses ≡ some a)
          × (find_by_address a.address addresses ≡ some a))
        (has_address s) addresses a pool h).0,
  )

  found_by_address :
      (k : ℕ) (b : DepositAddress)
      → IsPool addresses
      → find_unique address_key k addresses ≡ some b
      → text_eq s b.address ≡ true
      → find_by_address s addresses ≡ some b
  found_by_address k b pool found e =
      subst (λ t. find_by_address t addresses ≡ some b) (sym (text_eq-eq s b.address e))
        (All-found address_key
          (λ a.
            (find_unique address_key a.id addresses ≡ some a)
            × (find_by_address a.address addresses ≡ some a))
          k addresses b pool found).1

  pub not_at_address :
      (k : ℕ) (b : DepositAddress)
      → IsPool addresses
      → find_unique address_key k addresses ≡ some b
      → ((a : DepositAddress) → find_by_address s addresses ≡ some a → k ≢ a.id)
      → text_eq s b.address ≡ false
  not_at_address k b pool found other = elim (Bool-cases (text_eq s b.address)) [
    | inr differs ↦ differs
    | inl same ↦ absurd (
        other b (found_by_address k b pool found same)
          (sym (key_of_found address_key k addresses b found)))
  ]

closes : (r r' w w' p : ℤ) → w' +ℤ p ≡ w +ℤ pos 0 → p ≡ pos 0 → r +ℤ w' ≡ r +ℤ w
closes r r' w w' p e f =
    omega (int_laws, ap pos_part e, ap neg_part e, ap pos_part f, ap neg_part f)

takes : (q r w w' : ℤ) (n : ℕ) → w' +ℤ pos n ≡ w +ℤ pos 0 → q ≡ r +ℤ w → q -ℤ pos n ≡ r +ℤ w'
takes q r w w' n e f = omega (int_laws, ap pos_part e, ap neg_part e, ap pos_part f, ap neg_part f)

settle_amount_lem :
    (o : Outcome) (n : ℕ) (a : DepositAddress)
    → ((settle_amount o n a).id ≡ a.id)
      × ((settle_amount o n a).address ≡ a.address)
      × ((settle_amount o n a).pending_amount ≡ a.pending_amount -ℤ pos n)
settle_amount_lem Outcome.approve n a = (refl, refl, refl)
settle_amount_lem Outcome.reject n a = (refl, refl, refl)

not_awaited : (b : Bool) (n : ℤ) → (if b && false then n else pos 0) ≡ pos 0
not_awaited true n = refl
not_awaited false n = refl

closed_awaiting : (s : Text) (r : FundingRecord) → is_open r.status ≡ false → awaiting s r ≡ pos 0
closed_awaiting s r h = ground arith

-- `dbw` is `db` after the record and the balances are written.
module _ (id : ℕ) (old row : FundingRecord) (db dbw : Database)
    (found : find_unique record_key id db.funding_records ≡ some old)
    (closed : is_open row.status ≡ false) (live : is_open old.status ≡ true)
    (records : dbw.funding_records ≡ update record_key id (λ _. row) db.funding_records)
    (allocations : dbw.deposit_allocations ≡ db.deposit_allocations)
    (addresses : dbw.deposit_addresses ≡ db.deposit_addresses) where
  awaiting_moves :
      (s : Text)
      → sum (awaiting s) dbw.funding_records +ℤ awaiting s old
        ≡ sum (awaiting s) db.funding_records +ℤ pos 0
  awaiting_moves s =
      ap (λ rs. sum (awaiting s) rs +ℤ awaiting s old) records
      ∙ sum-update record_key (awaiting s) id (λ _. row) db.funding_records old found
      ∙ ap (λ x. sum (awaiting s) db.funding_records +ℤ x) (closed_awaiting s row closed)

  unmoved :
      (a : DepositAddress) → awaiting a.address old ≡ pos 0 → outstanding a dbw ≡ outstanding a db
  unmoved a e = rw allocations (
      closes (sum (reserved a.id) db.deposit_allocations) (pos 0)
        (sum (awaiting a.address) db.funding_records) (sum (awaiting a.address) dbw.funding_records)
        (awaiting a.address old) (awaiting_moves a.address) e)

  none_awaited :
      ((k : ℕ) (a : DepositAddress)
        → find_unique address_key k db.deposit_addresses ≡ some a
        → awaiting a.address old ≡ pos 0)
      → IsAccounted db
      → IsAccounted dbw
  none_awaited e acc k a h =
      let h' : find_unique address_key k db.deposit_addresses ≡ some a =
        ap (find_unique address_key k) (sym addresses) ∙ h in
      acc k a h' ∙ sym (unmoved a (e k a h'))

  takes_at :
      (action : Outcome) (s : Text) (b : DepositAddress)
      → is_deposit old.type ≡ true
      → old.to_address ≡ some s
      → b.address ≡ s
      → b.pending_amount ≡ outstanding b db
      → (settle_amount action old.amount b).pending_amount
        ≡ outstanding (settle_amount action old.amount b) dbw
  takes_at action s b deposited given at_s e =
      let wrote = settle_amount_lem action old.amount b in
      let matches : text_eq s b.address ≡ true = ap (λ t. text_eq s t) at_s ∙ text_eq_refl s in
      let waits : awaiting b.address old ≡ pos old.amount =
        rw (deposited, live, given, matches) refl in
      let moves = awaiting_moves b.address in
      rw (wrote.0, wrote.1, wrote.2, allocations)
        (takes b.pending_amount (sum (reserved b.id) db.deposit_allocations)
          (sum (awaiting b.address) db.funding_records)
          (sum (awaiting b.address) dbw.funding_records) old.amount
          (ap (λ x. sum (awaiting b.address) dbw.funding_records +ℤ x) (sym waits) ∙ moves) e)

  settled :
      (action : Outcome) (s : Text) (a : DepositAddress)
      → IsPool db.deposit_addresses
      → is_deposit old.type ≡ true
      → old.to_address ≡ some s
      → find_by_address s db.deposit_addresses ≡ some a
      → IsAccounted db
      → IsAccounted (outcome_at (some a) old.amount action dbw)
  settled action s a pool deposited given at_s acc =
      let (is_s, at_id) = at_address s db.deposit_addresses a at_s pool in
      let g = settle_amount action old.amount in
      IsAccounted-write db (outcome_at (some a) old.amount action dbw) a.id g
        (ap (update address_key a.id g) addresses) (λ v. (settle_amount_lem action old.amount v).0)
        (λ b found_b e.
          let same : a ≡ b = ground (arith, at_id, found_b) in
          takes_at action s b deposited given (ap (λ x. x.address) (sym same) ∙ is_s) e)
        (λ k b ne found_b.
          let differs = not_at_address s db.deposit_addresses k b pool found_b (λ a' at_s' e.
            let same : a ≡ a' = ground (arith, at_s, at_s') in
            ne (e ∙ ap (λ x. x.id) (sym same))) in
          unmoved b (
            rw (given, differs)
              (not_awaited (is_deposit old.type && is_open old.status) (pos old.amount))))
        acc

  pub apply_to_pool-IsAccounted :
      (action : Outcome)
      → IsPool db.deposit_addresses
      → IsAccounted db
      → IsAccounted (apply_to_pool old action dbw)
  unfolding apply_review_outcome
  apply_to_pool-IsAccounted action pool acc = elim (Bool-cases (is_deposit old.type)) [
    | inr other ↦ rw other (none_awaited (λ k a h. ground arith) acc)
    | inl deposited ↦ elim (Option-cases old.to_address) [
      | inl left_out ↦ rw (deposited, left_out) (none_awaited (λ k a h. ground arith) acc)
      | inr (s, given) ↦ elim (Option-cases (find_by_address s db.deposit_addresses)) [
        | inl missing ↦
            let gone : find_by_address s dbw.deposit_addresses ≡ none =
              ap (find_by_address s) addresses ∙ missing in
            rw (deposited, given, gone)
              (none_awaited
                (λ k a h.
                  let differs =
                    not_at_address s db.deposit_addresses k a pool h
                      (λ b at_b. absurd (ground (arith, missing, at_b))) in
                  ground (arith, differs, given))
                acc)
        | inr (a, at_s) ↦
            let there : find_by_address s dbw.deposit_addresses ≡ some a =
              ap (find_by_address s) addresses ∙ at_s in
            rw (deposited, given, there) (settled action s a pool deposited given at_s acc)
      ]
    ]
  ]
