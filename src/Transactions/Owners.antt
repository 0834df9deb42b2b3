-- ===== src/Transactions/Owners.antt =====
-- Every trade belongs to a user of the table (the foreign key of `TransactionLog.userId`).
pub mod Kept
use mathlib.Core.Path.{subst}
use crypto_sim_backend.Common.{ℕ, ◌≡◌, true, List, ◌∷◌, some, All, All-map, ◌∙◌, sym}
use crypto_sim_backend.Common.Table.{
  find_unique, update, contains, contains-update, find_of_contains, All-found, All-update,
  key_of_found,
}
use crypto_sim_backend.Database.{Database, User, user_id, TransactionLog, order_key}

abbrev pub HasOwner : List User → TransactionLog → Type 0
HasOwner users t = contains user_id t.user_id users ≡ true

abbrev pub HasOwners : Database → Type 0
HasOwners db = All (HasOwner db.users) db.transaction_logs

pub found_at_key :
    (order : ℕ) (db : Database) (t : TransactionLog)
    → find_unique order_key order db.transaction_logs ≡ some t
    → find_unique order_key t.order_number db.transaction_logs ≡ some t
found_at_key order db t h =
    subst (λ k. find_unique order_key k db.transaction_logs ≡ some t)
      (sym (key_of_found order_key order db.transaction_logs t h)) h

pub owner_of :
    (order : ℕ) (db : Database) (t : TransactionLog)
    → HasOwners db
    → find_unique order_key order db.transaction_logs ≡ some t
    → (u : User) × (find_unique user_id t.user_id db.users ≡ some u)
owner_of order db t owners h =
    find_of_contains user_id t.user_id db.users
      (All-found order_key (HasOwner db.users) order db.transaction_logs t owners h)

-- A write of a user's row keeps the owners, and so does a write of a trade that keeps its owner.
pub All-HasOwner-update :
    (k : ℕ) (g : User → User) (users : List User) (logs : List TransactionLog)
    → ((u : User) → (g u).id ≡ u.id)
    → All (HasOwner users) logs
    → All (HasOwner (update user_id k g users)) logs
All-HasOwner-update k g users logs same owners =
    All-map logs (λ t h. contains-update user_id t.user_id k g users same ∙ h) owners

pub All-HasOwner-write :
    (order : ℕ) (t t' : TransactionLog) (users : List User) (logs : List TransactionLog)
    → find_unique order_key order logs ≡ some t
    → t'.user_id ≡ t.user_id
    → All (HasOwner users) logs
    → All (HasOwner users) (update order_key order (λ _. t') logs)
All-HasOwner-write order t t' users logs found same owners =
    All-update order_key (HasOwner users) order (λ _. t') logs owners
      λ x _ _.
        subst (λ k. contains user_id k users ≡ true) (sym same)
          (All-found order_key (HasOwner users) order logs t owners found)
