-- ===== src/Funding/Balances.antt =====
-- The balances under reviews: what the ledger explains, and that nobody is overdrawn.
use mathlib.Core.Path.{subst}
use crypto_sim_backend.Common.{
  ℕ, ◌≡◌, refl, sym, ap, ◌∙◌, ℤ, pos, ◌+ℤ◌, ◌-ℤ◌, ◌≤ℤ◌, ltb_ℤ, int_laws, Bool, true, false, ◌&&◌,
  ◌==◌, some, sum, ok, err, Result-cases, Bool-cases, inl, inr, arith, if◌then◌else◌,
}
use crypto_sim_backend.Common.Table.{find_unique, update, find-update_self, key_of_found}
use crypto_sim_backend.Database.{
  Database, User, user_id, AccountType, is_real, BalanceLedger, FundingRecord, FundingType,
  record_key, is_deposit, is_open,
}
use crypto_sim_backend.Transactions.Equity.{held, held_by, held-update}
use crypto_sim_backend.Deposits.Review.{Outcome}
use crypto_sim_backend.Funding.Checks.{FundingError}
use crypto_sim_backend.Funding.Reviews.{
  ReviewFundingRecordDto, apply_balance, apply_to_pool, set_real_balance, next_status, delta_of,
  reviewed_row, review_record,
}
use crypto_sim_backend.Funding.Outcomes.{Reviews, review_record-Reviews, apply_to_pool-users}

abbrev pub ledger_delta : ℕ → BalanceLedger → ℤ
ledger_delta uid l = if (l.user_id == uid) && is_real l.account_type then l.delta else pos 0

-- What the ledger of reviews does not explain of a user's real balance.
unfoldable pub unledgered : ℕ → Database → ℤ
unledgered uid db = held uid AccountType.real db.users -ℤ sum (ledger_delta uid) db.balance_ledgers

drops_delta : (h h' b d s : ℤ) → h ≡ b → h' ≡ b +ℤ d → h' -ℤ (d +ℤ s) ≡ h -ℤ s
drops_delta h h' b d s p q = rw (p, q) (omega int_laws)

drops_nothing : (h h' s : ℤ) → h' ≡ h → h' -ℤ (pos 0 +ℤ s) ≡ h -ℤ s
drops_nothing h h' s p = rw p (omega int_laws)

stays_covered :
    (b : ℤ) (t : FundingType) (n : ℕ)
    → pos 0 ≤ℤ b
    → (is_deposit t ≡ false → ltb_ℤ b (pos n) ≡ false)
    → pos 0 ≤ℤ b +ℤ delta_of t n
stays_covered b FundingType.deposit n h c = grind int_laws
stays_covered b FundingType.withdraw n h c = let room = c refl in grind (int_laws, room)

pub closed_status : (a : Outcome) → is_open (next_status a) ≡ false
closed_status Outcome.approve = refl
closed_status Outcome.reject = refl

-- The real balance that a review leaves to a user.
held_after :
    (uid : ℕ) (applies : Bool) (reviewer : ℕ) (r : FundingRecord) (u : User) (db : Database)
    → find_unique user_id r.user_id db.users ≡ some u
    → held uid AccountType.real (apply_balance applies reviewer u.real_balance r db).users ≡ (
        if applies && (r.user_id == uid)
        then u.real_balance +ℤ delta_of r.type r.amount
        else held uid AccountType.real db.users)
held_after uid applies reviewer r u db found = elim (Bool-cases applies) [
  | inr left ↦ rw left refl
  | inl hit ↦ rw hit (
      held-update uid AccountType.real r.user_id
        (set_real_balance (u.real_balance +ℤ delta_of r.type r.amount)) db.users u found
        (λ v. refl))
]

pub apply_balance-records :
    (applies : Bool) (reviewer : ℕ) (before : ℤ) (r : FundingRecord) (db : Database)
    → (apply_balance applies reviewer before r db).funding_records ≡ db.funding_records
apply_balance-records true reviewer before r db = refl
apply_balance-records false reviewer before r db = refl

apply_balance-unledgered :
    (uid : ℕ) (applies : Bool) (reviewer : ℕ) (r : FundingRecord) (u : User) (db : Database)
    → find_unique user_id r.user_id db.users ≡ some u
    → unledgered uid (apply_balance applies reviewer u.real_balance r db) ≡ unledgered uid db
unfolding unledgered
apply_balance-unledgered uid false reviewer r u db found = refl
apply_balance-unledgered uid true reviewer r u db found =
    let after = held_after uid true reviewer r u db found in
    let s = sum (ledger_delta uid) db.balance_ledgers in
    let h = held uid AccountType.real db.users in
    let h' = held uid AccountType.real (apply_balance true reviewer u.real_balance r db).users in
    elim (Bool-cases (r.user_id == uid)) [
      | inl hit ↦
          let e : r.user_id ≡ uid = ground arith in
          let start : h ≡ u.real_balance =
            ap (held_by uid AccountType.real)
              (subst (λ k. find_unique user_id k db.users ≡ some u) e found) in
          rw hit
            (drops_delta h h' u.real_balance (delta_of r.type r.amount) s start (rw hit at after))
      | inr miss ↦ rw miss (drops_nothing h h' s (rw miss at after))
    ]

-- A review that goes through moves a user's real balance by exactly the amounts that it adds to the
-- ledger: whatever the action, the type and the flags, the part of every user's real balance that
-- the ledger does not explain stays the same.
pub review-ledger :
    (now id : ℕ) (dto : ReviewFundingRecordDto) (reviewer : ℕ) (db : Database)
    (r : FundingRecord × Database)
    → review_record now id dto reviewer db ≡ ok r
    → (uid : ℕ) → unledgered uid r.1 ≡ unledgered uid db
unfolding unledgered
review-ledger now id dto reviewer db r h uid =
    let c = review_record-Reviews now id dto reviewer db r h in
    let row = reviewed_row now reviewer dto c.action c.applies c.user.real_balance c.old in
    let base = record db { funding_records = update record_key id (λ _. row) db.funding_records } in
    let paid = apply_balance c.applies reviewer c.user.real_balance c.old base in
    let kept = apply_to_pool-users c.old c.action paid in
    ap (unledgered uid) c.written
    ∙ ap
        (λ x.
          held uid AccountType.real x
          -ℤ sum (ledger_delta uid) (apply_to_pool c.old c.action paid).balance_ledgers)
        kept.0
    ∙ ap (λ x. held uid AccountType.real paid.users -ℤ sum (ledger_delta uid) x) kept.1
    ∙ apply_balance-unledgered uid c.applies reviewer c.old c.user base c.owner

-- No review overdraws: where a user's real balance is not negative before a review that goes
-- through, it is not negative after it.
pub review-covered :
    (now id : ℕ) (dto : ReviewFundingRecordDto) (reviewer : ℕ) (db : Database)
    (r : FundingRecord × Database)
    → review_record now id dto reviewer db ≡ ok r
    → (uid : ℕ) → pos 0 ≤ℤ held uid AccountType.real db.users
    → pos 0 ≤ℤ held uid AccountType.real r.1.users
review-covered now id dto reviewer db r h uid nonneg =
    let c = review_record-Reviews now id dto reviewer db r h in
    let row = reviewed_row now reviewer dto c.action c.applies c.user.real_balance c.old in
    let base = record db { funding_records = update record_key id (λ _. row) db.funding_records } in
    let paid = apply_balance c.applies reviewer c.user.real_balance c.old base in
    let kept = apply_to_pool-users c.old c.action paid in
    let after = held_after uid c.applies reviewer c.old c.user base c.owner in
    let same : held uid AccountType.real r.1.users ≡ held uid AccountType.real paid.users =
      ap (λ x. held uid AccountType.real x.users) c.written
      ∙ ap (held uid AccountType.real) kept.0 in
    elim (Bool-cases (c.applies && (c.old.user_id == uid))) [
      | inr other ↦ rw (same, after, other) nonneg
      | inl hit ↦
          let e : c.old.user_id ≡ uid = ground arith in
          let start : held uid AccountType.real db.users ≡ c.user.real_balance =
            ap (held_by uid AccountType.real)
              (subst (λ k. find_unique user_id k db.users ≡ some c.user) e c.owner) in
          let applies : c.applies ≡ true = ground arith in
          rw (same, after, hit)
            (stays_covered c.user.real_balance c.old.type c.old.amount (rw start at nonneg)
              (c.covered applies))
    ]

reviewed_found :
    (now id : ℕ) (dto : ReviewFundingRecordDto) (reviewer : ℕ) (db : Database)
    (r : FundingRecord × Database)
    → Reviews now id dto reviewer db r
    → find_unique record_key id r.1.funding_records ≡ some r.0
reviewed_found now id dto reviewer db r c =
    let row = reviewed_row now reviewer dto c.action c.applies c.user.real_balance c.old in
    let base = record db { funding_records = update record_key id (λ _. row) db.funding_records } in
    let kept =
      apply_to_pool-users c.old c.action
        (apply_balance c.applies reviewer c.user.real_balance c.old base) in
    let wrote : find_unique record_key id base.funding_records ≡ some row =
      find-update_self record_key id (λ _. row) db.funding_records c.old c.found
        (key_of_found record_key id db.funding_records c.old c.found) in
    ap (find_unique record_key id) (
      ap (λ x. x.funding_records) c.written
      ∙ kept.2
      ∙ apply_balance-records c.applies reviewer c.user.real_balance c.old base)
    ∙ wrote
    ∙ ap some (sym c.row)

-- A record is reviewed once: after a review that goes through, every other review of the record is
-- refused, whatever it asks and whoever makes it.
pub review-once :
    (now id : ℕ) (dto : ReviewFundingRecordDto) (reviewer : ℕ) (db : Database)
    (r : FundingRecord × Database)
    → review_record now id dto reviewer db ≡ ok r
    → (now' : ℕ) (dto' : ReviewFundingRecordDto) (reviewer' : ℕ)
    → (e : FundingError) × (review_record now' id dto' reviewer' r.1 ≡ err e)
review-once now id dto reviewer db r h now' dto' reviewer' =
    let c = review_record-Reviews now id dto reviewer db r h in
    let at_id = reviewed_found now id dto reviewer db r c in
    elim (Result-cases (review_record now' id dto' reviewer' r.1)) [
      | inr refused ↦ refused
      | inl (r', h') ↦
          let c' = review_record-Reviews now' id dto' reviewer' r.1 r' h' in
          let same : c'.old ≡ r.0 = cc in
          absurd (
            ground (
              arith,
              closed_status c.action,
              sym c'.was_open ∙ ap (λ x. is_open x.status) (same ∙ c.row),
            ))
    ]
