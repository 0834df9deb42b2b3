-- ===== src/Users/Ids.antt =====
-- `generateUniqueUserId` (backend/src/common/utils/user-id.generator.ts). The drawn identifiers are an
-- argument, one for each attempt.
use crypto_sim_backend.Common.{
  ℕ, zero, suc, ◌+◌, ◌<◌, ◌≡◌, List, none, some, Result, ok, err, Option-cases, inl, inr, arith,
}
use crypto_sim_backend.Common.Table.{find_unique}
use crypto_sim_backend.Database.{User, user_id}

pub data UserError : Type 0 where
  email_already_exists invalid_verification_status user_not_found email_in_use : UserError
  negative_balance id_space_exhausted operator_not_found transaction_not_found : UserError

abbrev pub max_retries : ℕ
max_retries = 10

-- The loop with the attempts that are left, from the attempt of that number on.
unfoldable pub draw_id : ℕ → ℕ → (ℕ → ℕ) → List User → Result UserError ℕ
draw_id zero attempt draws users = err UserError.id_space_exhausted
draw_id (suc left) attempt draws users =
    let again = draw_id left (attempt + 1) draws users in
    elim (find_unique user_id (draws attempt) users) [ none ↦ ok (draws attempt) | some u ↦ again ]

unfoldable pub generate_unique_user_id : (ℕ → ℕ) → List User → Result UserError ℕ
unfolding draw_id
generate_unique_user_id draws users = draw_id max_retries 0 draws users

draw_id-fresh :
    (left attempt : ℕ) (draws : ℕ → ℕ) (users : List User) (id : ℕ)
    → draw_id left attempt draws users ≡ ok id
    → find_unique user_id id users ≡ none
unfolding draw_id
draw_id-fresh zero attempt draws users id h = cc
draw_id-fresh (suc left) attempt draws users id h =
    elim (Option-cases (find_unique user_id (draws attempt) users)) [
      | inl free ↦ ground arith
      | inr (u, taken) ↦ draw_id-fresh left (attempt + 1) draws users id (ground arith)
    ]

-- An identifier that is generated belongs to no user.
pub generate-fresh :
    (draws : ℕ → ℕ) (users : List User) (id : ℕ)
    → generate_unique_user_id draws users ≡ ok id
    → find_unique user_id id users ≡ none
unfolding generate_unique_user_id
generate-fresh draws users id h = draw_id-fresh max_retries 0 draws users id h

draw_id-total :
    (left attempt k at : ℕ) (draws : ℕ → ℕ) (users : List User)
    → k < left
    → at ≡ attempt + k
    → find_unique user_id (draws at) users ≡ none
    → (id : ℕ) × (draw_id left attempt draws users ≡ ok id)
unfolding draw_id
draw_id-total zero attempt k at draws users h e free = absurd (omega arith)
draw_id-total (suc left) attempt zero at draws users h e free =
    let here : at ≡ attempt = omega arith in
    let free_here : find_unique user_id (draws attempt) users ≡ none = rw here at free in
    (draws attempt, rw (free_here, draw_id))
draw_id-total (suc left) attempt (suc k) at draws users h e free =
    elim (Option-cases (find_unique user_id (draws attempt) users)) [
      | inl now_free ↦ (draws attempt, rw (now_free, draw_id))
      | inr (u, taken) ↦
          rw (taken, draw_id)
            (draw_id-total left (attempt + 1) k at draws users (omega arith) (omega arith) free)
    ]

-- If one of the ten drawn identifiers belongs to no user, the call returns an identifier.
pub generate-total :
    (draws : ℕ → ℕ) (users : List User) (k : ℕ)
    → k < max_retries
    → find_unique user_id (draws k) users ≡ none
    → (id : ℕ) × (generate_unique_user_id draws users ≡ ok id)
unfolding generate_unique_user_id
generate-total draws users k h free =
    draw_id-total max_retries 0 k k draws users h (omega arith) free
