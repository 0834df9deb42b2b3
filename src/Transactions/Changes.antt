-- ===== src/Transactions/Changes.antt =====
-- Every call is a sequence of changes, each of one trade: what holds of each change holds of every
-- history of calls.
use crypto_sim_backend.Common.{
  ℕ, ◌≡◌, refl, sym, ◌⊎◌, ℤ, List, [], ◌∷◌, Option, none, some, All, filter, Text, Result, ok, err,
  arith, Result-cases, Option-cases, inl, inr, ◌==◌, Bool-cases, ◌>>=◌,
}
use mathlib.Core.Path.{subst}
use crypto_sim_backend.Common.Table.{find_unique}
use crypto_sim_backend.Database.{Database, TransactionLog, order_key, is_pending}
use crypto_sim_backend.Transactions.Inputs.{
  Error, CreateTransactionDto, AdminCreateTransactionDto, SettleTransactionOptions, no_options,
}
use crypto_sim_backend.Transactions.Reasons.{Json}
use crypto_sim_backend.Transactions.Settle.{settle_transaction_by_system, settle_transaction}
use crypto_sim_backend.Transactions.Create.{Surroundings, create_transaction}
use crypto_sim_backend.Transactions.AdminCreate.{admin_create_transaction}
use crypto_sim_backend.Transactions.Cancel.{
  cancel_transaction, update_current_price, force_settle_transaction,
}
use crypto_sim_backend.Transactions.AutoSettle.{
  is_expired, expiry_price, settle_expired, after_round, settle_each, auto_settle_by_order_number,
  auto_settle_expired_transactions, auto_expired,
}
use crypto_sim_backend.Transactions.Calls.{
  Call, creates, admin_creates, settles, settles_by_system, cancels, updates_price, forces,
  auto_settles, scans, after, after_job, step, run,
}
use crypto_sim_backend.Transactions.Outcomes.{Settles, settle_transaction_by_system-Settles}
use crypto_sim_backend.Transactions.Outcomes.Orders.{
  Creates, create_transaction-Creates, AdminCreates, admin_create_transaction-AdminCreates, Cancels,
  cancel_transaction-Cancels,
}
use crypto_sim_backend.Transactions.Outcomes.Relabels.{
  Relabels, update_current_price-Relabels, force_settle_transaction-Relabels,
}

-- `P` is what is known of the trades that administrators create.
module _ (json : Json) (P : AdminCreateTransactionDto → Type 0) where
  pub data Change (db : Database) (r : TransactionLog × Database) : Type 0 where
    opened :
        (s : Surroundings) (uid : ℕ) (dto : CreateTransactionDto)
        → Creates s uid dto db r
        → Change db r
    admin_opened :
        (s : Surroundings) (dto : AdminCreateTransactionDto) (operator : ℕ) (name : Option Text)
        → P dto
        → AdminCreates s dto operator name db r
        → Change db r
    settled :
        (now : ℕ) (market : Option ℤ) (order : ℕ) (exit : Option ℤ) (o : SettleTransactionOptions)
        → Settles json now market order db exit o r
        → Change db r
    canceled : (order user : ℕ) → Cancels order user db r → Change db r
    relabeled : (order : ℕ) → Relabels order db r → Change db r

  pub data Changes (db : Database) : Database → Type 0 where
    done : Changes db db
    more :
        {db' : Database} (r : TransactionLog × Database)
        → Changes db db'
        → Change db' r
        → Changes db r.1

  pub Changes-trans : {a b c : Database} → Changes a b → Changes b c → Changes a c
  Changes-trans h done = h
  Changes-trans h (more r k x) = more r (Changes-trans h k) x

  after-Changes :
      (db : Database) (m : Result Error (TransactionLog × Database))
      → ((r : TransactionLog × Database) → m ≡ ok r → Change db r)
      → Changes db (after db m)
  after-Changes db (ok r) f = more r done (f r refl)
  after-Changes db (err e) f = done

  -- A call of the owner does nothing, or is the system's settlement.
  settle_transaction-cases :
      (now : ℕ) (market : Option ℤ) (order : ℕ) (exit : ℤ) (user : ℕ) (db : Database)
      → (after db (settle_transaction json now market order exit user db) ≡ db)
        ⊎ (settle_transaction json now market order exit user db
            ≡ settle_transaction_by_system json now market order (some exit) no_options db)
  unfolding settle_transaction
  settle_transaction-cases now market order exit user db =
      elim (Option-cases (find_unique order_key order db.transaction_logs)) [
        | inl missing ↦ inl (ground arith)
        | inr (t, found) ↦ elim (Bool-cases (is_pending t.status)) [
          | inr closed ↦ inl (ground arith)
          | inl live ↦ elim (Bool-cases (t.user_id == user)) [
            | inl own ↦ inr (ground arith)
            | inr other ↦ inl (ground arith)
          ]
        ]
      ]

  by_system-Changes :
      (now : ℕ) (market : Option ℤ) (order : ℕ) (exit : Option ℤ) (o : SettleTransactionOptions)
      (db : Database)
      → Changes db (after db (settle_transaction_by_system json now market order exit o db))
  by_system-Changes now market order exit o db =
      after-Changes db (settle_transaction_by_system json now market order exit o db) λ r h.
        settled now market order exit o
          (settle_transaction_by_system-Settles json now market order db exit o r h)

  settle_transaction-Changes :
      (now : ℕ) (market : Option ℤ) (order : ℕ) (exit : ℤ) (user : ℕ) (db : Database)
      → Changes db (after db (settle_transaction json now market order exit user db))
  settle_transaction-Changes now market order exit user db =
      elim (settle_transaction-cases now market order exit user db) [
        | inl kept ↦ rw kept done
        | inr same ↦ rw same (by_system-Changes now market order (some exit) no_options db)
      ]

  settle_expired-Changes :
      (market : Text → Option ℤ) (now : ℕ) (t : TransactionLog) (db : Database)
      → Changes db (after db (settle_expired json market now t db))
  unfolding settle_expired
  settle_expired-Changes market now t db =
      elim (Result-cases (expiry_price t.current_price (market t.asset_type))) [
        | inl (p, e) ↦
            rw e
              (by_system-Changes now (market t.asset_type) t.order_number (some p) auto_expired db)
        | inr (x, e) ↦ rw e done
      ]

  after_round-after :
      (m : Result Error (TransactionLog × Database)) (n : ℕ) (db : Database)
      → (after_round json (λ t. none) m (n, db)).1 ≡ after db m
  after_round-after (ok r) n db = refl
  after_round-after (err e) n db = refl

  settle_each-Changes :
      (market : Text → Option ℤ) (now : ℕ) (ts : List TransactionLog) (acc : ℕ × Database)
      → Changes acc.1 (settle_each json market now ts acc).1
  unfolding settle_each
  settle_each-Changes market now [] acc = done
  settle_each-Changes market now (t ∷ ts) acc =
      let m = settle_expired json market now t acc.1 in
      Changes-trans
        (subst (Changes acc.1) (sym (after_round-after m acc.0 acc.1))
          (settle_expired-Changes market now t acc.1))
        (settle_each-Changes market now ts (after_round json market m acc))

  -- The queue's job does nothing, or settles one expired trade.
  after_job-after :
      (db : Database) (m : Result Error (TransactionLog × Database))
      → after_job db (m >>= λ r. ok r.1) ≡ after db m
  after_job-after db (ok r) = refl
  after_job-after db (err e) = refl

  job-Changes :
      (market : Text → Option ℤ) (now order : ℕ) (db : Database)
      → Changes db (after_job db (auto_settle_by_order_number json market now order db))
  unfolding auto_settle_by_order_number
  job-Changes market now order db =
      elim (Option-cases (find_unique order_key order db.transaction_logs)) [
        | inl missing ↦ rw (missing, auto_settle_by_order_number) done
        | inr (t, found) ↦ elim (Bool-cases (is_pending t.status)) [
          | inl live ↦
              rw (found, live, auto_settle_by_order_number)
                (rw (after_job-after db (settle_expired json market now t db))
                  (settle_expired-Changes market now t db))
          | inr closed ↦ rw (found, closed, auto_settle_by_order_number) done
        ]
      ]

  -- What the calls of a history that create an administrator's trade are known to satisfy.
  abbrev pub Allowed : Call → Type 0
  Allowed (admin_creates s dto operator name) = P dto
  Allowed _ = Unit

  pub step-Changes : (db : Database) (c : Call) → Allowed c → Changes db (step json db c)
  unfolding step auto_settle_expired_transactions
  step-Changes db (creates s uid dto) a =
      after-Changes db (create_transaction s uid dto db)
        λ r h. opened s uid dto (create_transaction-Creates s uid dto db r h)
  step-Changes db (admin_creates s dto operator name) a =
      after-Changes db (admin_create_transaction s dto operator name db) λ r h.
        admin_opened s dto operator name a
          (admin_create_transaction-AdminCreates s dto operator name db r h)
  step-Changes db (settles now market order exit user) a =
      settle_transaction-Changes now market order exit user db
  step-Changes db (settles_by_system now market order exit o) a =
      by_system-Changes now market order exit o db
  step-Changes db (cancels order user) a =
      after-Changes db (cancel_transaction order user db)
        λ r h. canceled order user (cancel_transaction-Cancels order user db r h)
  step-Changes db (updates_price order price) a =
      after-Changes db (update_current_price order price db)
        λ r h. relabeled order (update_current_price-Relabels order price db r h)
  step-Changes db (forces now order params) a =
      after-Changes db (force_settle_transaction json now order params db)
        λ r h. relabeled order (force_settle_transaction-Relabels json now order params db r h)
  step-Changes db (auto_settles market now order) a = job-Changes market now order db
  step-Changes db (scans market now) a =
      settle_each-Changes market now (filter (is_expired now) db.transaction_logs) (0, db)

  pub run-Changes : (db : Database) (cs : List Call) → All Allowed cs → Changes db (run json db cs)
  unfolding run
  run-Changes db [] a = done
  run-Changes db (c ∷ cs) a =
      Changes-trans (step-Changes db c a.0) (run-Changes (step json db c) cs a.1)

  -- An invariant of each change is one of every history.
  pub Changes-keep {κ} :
      (Q : Database → Type κ)
      → ((db : Database) (r : TransactionLog × Database) → Change db r → Q db → Q r.1)
      → {db db' : Database} → Changes db db'
      → Q db
      → Q db'
  Changes-keep Q f done q = q
  Changes-keep Q f (more {db' = mid} r h x) q = f mid r x (Changes-keep Q f h q)
