-- ===== src/Auth/Sessions.antt =====
-- Passwords and refresh tokens from one call to the next.
use mathlib.Core.Path.{subst}
use crypto_sim_backend.Common.{
  ℕ, ◌+◌, ◌<◌, ◌≡◌, refl, sym, ◌∙◌, ap, ◌==◌, if◌then◌else◌, Bool, true, false, List, [], ◌∷◌,
  find?, Option, none, some, Text, text_eq, text_eq_refl, ok, err, Option-cases, Bool-cases, ==_iff,
  find?-passes, inl, inr, arith,
}
use crypto_sim_backend.Common.Table.{find_unique, update, find-update_self, key_of_found}
use crypto_sim_backend.Database.{Database, User, user_id}
use crypto_sim_backend.Users.Service.{find_by_email, has_email, write_user, deactivate}
use crypto_sim_backend.Users.Distinct.{IsDistinct}
use crypto_sim_backend.Auth.Libraries.{Bcrypt, Jwt, read_bytes}
use crypto_sim_backend.Auth.Service.{
  AuthTokens, AuthError, login, refresh_tokens, revoke_tokens, validate_user, change_password,
  tokens_of, set_refresh, note_login, generate_and_persist_tokens, matches,
}

module _ (b : Bcrypt) (j : Jwt) where
  open b use {hash, compare}
  open j use {refresh_ttl, sign_refresh, verify_refresh, verify-sign}

  -- A token is accepted where the row holds the hash of one with the same first 72 bytes.
  accepts :
      (now salt salt' id : ℕ) (token kept : Text) (db : Database) (u : User)
      → verify_refresh now token ≡ some id
      → find_unique user_id id db.users ≡ some u
      → matches b j token u.refresh_token_hash ≡ matches b j token (some (hash salt kept))
      → read_bytes token ≡ read_bytes kept
      → refresh_tokens b j now salt' token db ≡ ok (generate_and_persist_tokens b j now salt' u db)
  unfolding refresh_tokens
  accepts now salt salt' id token kept db u verified found held same =
      rw
        (
          verified,
          found,
          held,
          b.compare-hash salt kept token,
          same,
          text_eq_refl (read_bytes kept),
        )
        refl

  -- The row after tokens are stored, and that it accepts what begins like the refresh token.
  accepted_after :
      (now salt later salt' id : ℕ) (token : Text) (tokens : AuthTokens) (db : Database) (u : User)
      → find_unique user_id id db.users ≡ some u
      → verify_refresh later token ≡ some id
      → read_bytes token ≡ read_bytes tokens.refresh_token
      → (s : AuthTokens × Database) × (refresh_tokens b j later salt' token
            (write_user u.id (set_refresh b j salt tokens) db)
          ≡ ok s)
  accepted_after now salt later salt' id token tokens db u found verified same =
      let at : u.id ≡ id = key_of_found user_id id db.users u found in
      let db' : Database = write_user u.id (set_refresh b j salt tokens) db in
      let u' : User = set_refresh b j salt tokens u in
      let found' : find_unique user_id id db'.users ≡ some u' =
        subst
          (λ k.
            find_unique user_id id (update user_id k (set_refresh b j salt tokens) db.users)
            ≡ some u')
          (sym at)
          (find-update_self user_id id (set_refresh b j salt tokens) db.users u found at) in
      (
        generate_and_persist_tokens b j later salt' u' db',
        accepts later salt salt' id token tokens.refresh_token db' u' verified found' refl same,
      )

  -- A refresh token that a login gave is accepted until its time to live is over.
  pub login-refresh :
      (now salt later salt' id : ℕ) (ip : Option Text) (db : Database) (r : AuthTokens × Database)
      → login b j now salt id ip db ≡ ok r
      → later < now + refresh_ttl
      → (s : AuthTokens × Database) × (refresh_tokens b j later salt' r.0.refresh_token r.1 ≡ ok s)
  unfolding login refresh_tokens
  login-refresh now salt later salt' id ip db r h early =
      elim (Option-cases (find_unique user_id id db.users)) [
        | inl missing ↦ absurd (ground arith)
        | inr (u, found) ↦
            let at : u.id ≡ id = key_of_found user_id id db.users u found in
            let u' : User = note_login b j now ip u in
            let db' : Database = write_user id (note_login b j now ip) db in
            let e : r ≡ generate_and_persist_tokens b j now salt u' db' = ground arith in
            let found' : find_unique user_id id db'.users ≡ some u' =
              find-update_self user_id id (note_login b j now ip) db.users u found at in
            rw e (
              accepted_after now salt later salt' id (tokens_of b j now u').refresh_token
                (tokens_of b j now u') db' u' found'
                (verify-sign now later u.id u.email early ∙ ap some at) refl)
      ]

  -- After `revokeTokens` no refresh token of the user is accepted.
  pub revoke-refresh :
      (now salt id : ℕ) (token : Text) (db db' : Database)
      → revoke_tokens id db ≡ ok db'
      → verify_refresh now token ≡ some id
      → refresh_tokens b j now salt token db' ≡ err AuthError.unauthorized
  unfolding revoke_tokens refresh_tokens
  revoke-refresh now salt id token db db' h verified =
      elim (Option-cases (find_unique user_id id db.users)) [
        | inl missing ↦ absurd (ground arith)
        | inr (u, found) ↦
            let forget : User → User = λ x. record x { refresh_token_hash = none } in
            let e : db' ≡ write_user id forget db = ground arith in
            let found' : find_unique user_id id (update user_id id forget db.users)
                ≡ some (forget u) =
              find-update_self user_id id forget db.users u found
                (key_of_found user_id id db.users u found) in
            rw (e, verified, found') refl
      ]

  -- A refresh does not withdraw the token that it was made with: where the new token begins with the
  -- same 72 bytes in UTF-8, the old one is accepted again until its time to live is over.
  pub refresh-stale :
      (now salt later salt' id : ℕ) (token : Text) (db : Database) (r : AuthTokens × Database)
      → refresh_tokens b j now salt token db ≡ ok r
      → read_bytes token ≡ read_bytes r.0.refresh_token
      → verify_refresh now token ≡ some id
      → verify_refresh later token ≡ some id
      → (s : AuthTokens × Database) × (refresh_tokens b j later salt' token r.1 ≡ ok s)
  unfolding refresh_tokens
  refresh-stale now salt later salt' id token db r h same verified verified' =
      elim (Option-cases (find_unique user_id id db.users)) [
        | inl missing ↦ absurd (ground arith)
        | inr (u, found) ↦
            let e : r ≡ generate_and_persist_tokens b j now salt u db = ground arith in
            rw e (
              accepted_after now salt later salt' id token (tokens_of b j now u) db u found
                verified'
                (same ∙ ap (λ (x : AuthTokens × Database). read_bytes x.0.refresh_token) e))
      ]

-- Behind the row that a search by address finds, updates by its identifier keep being found.
find-by_id :
    (p : User → Bool) (us : List User) (u : User)
    → IsDistinct us
    → find? p us ≡ some u
    → find_unique user_id u.id us ≡ some u
find-by_id p [] u d h = cc
find-by_id p (x ∷ us) u d h = elim (Bool-cases (p x)) [
  | inl hit ↦ ground arith
  | inr miss ↦
      let later : find_unique user_id u.id us ≡ some u = find-by_id p us u d.2 (rw miss at h) in
      elim (Bool-cases (x.id == u.id)) [
        | inl same ↦ absurd (clash us u ((==_iff x.id u.id).0 same) d.0 later)
        | inr other ↦ rw other later
      ]
]
  where
    clash :
        {k l : ℕ} (xs : List User) (v : User)
        → k ≡ l
        → find_unique user_id k xs ≡ none
        → find_unique user_id l xs ≡ some v
        → ⊥
    clash xs v e missing found = cc

find-update_kept :
    (p : User → Bool) (k : ℕ) (g : User → User) (us : List User) (u : User)
    → ((x : User) → p (g x) ≡ p x)
    → find? p us ≡ some u
    → find_unique user_id k us ≡ some u
    → find? p (update user_id k g us) ≡ some (g u)
find-update_kept p k g [] u kept h at = cc
find-update_kept p k g (x ∷ us) u kept h at = elim (Bool-cases (x.id == k)) [
  | inl hit ↦ rw hit (ground (arith, kept x, find?-passes p (x ∷ us) u))
  | inr miss ↦ rw miss (elim (Bool-cases (p x)) [
    | inl passes ↦ absurd (ground (arith, key_of_found user_id k us u))
    | inr fails ↦ rw fails (find-update_kept p k g us u kept (rw fails at h) (rw miss at at))
  ])
]

module _ (b : Bcrypt) where
  open b use {hash, compare}

  -- After a change of the password the login by the address takes what has the same first 72 bytes in
  -- UTF-8 as the new password, and nothing else; addresses and identifiers are of one user each.
  pub change_password-validate :
      (salt : ℕ) (email old_password new_password tried : Text) (db db' : Database) (u : User)
      → IsDistinct db.users
      → find_by_email email db.users ≡ some u
      → change_password b salt u.id old_password new_password db ≡ ok db'
      → validate_user b email tried db' ≡ (
          if text_eq (read_bytes tried) (read_bytes new_password)
          then some (record u { password_hash = hash salt new_password })
          else none)
  unfolding change_password validate_user
  change_password-validate salt email old_password new_password tried db db' u d by_email h =
      let g : User → User = λ x. record x { password_hash = hash salt new_password } in
      let found : find_unique user_id u.id db.users ≡ some u =
        find-by_id (has_email email) db.users u d by_email in
      let e : db' ≡ write_user u.id g db = ground arith in
      let by_email' : find_by_email email (update user_id u.id g db.users) ≡ some (g u) =
        find-update_kept (has_email email) u.id g db.users u (λ x. refl) by_email found in
      rw (e, by_email', validate_user, b.compare-hash salt new_password tried) refl

  -- Deactivation does not keep a user from logging in: who could log in before can do so afterwards.
  pub deactivate-validate :
      (email password : Text) (db db' : Database) (u : User)
      → IsDistinct db.users
      → validate_user b email password db ≡ some u
      → deactivate u.id db ≡ ok db'
      → validate_user b email password db' ≡ some (record u { is_active = false })
  unfolding validate_user deactivate
  deactivate-validate email password db db' u d h done =
      elim (Option-cases (find_by_email email db.users)) [
        | inl missing ↦ absurd (ground arith)
        | inr (v, by_email) ↦
            let matched : compare password v.password_hash ≡ true = ground arith in
            let same : u ≡ v = ground arith in
            let g : User → User = λ x. record x { is_active = false } in
            let e : db' ≡ write_user u.id g db = ground arith in
            let by_email_u : find_by_email email db.users ≡ some u = rw (same) by_email in
            let found : find_unique user_id u.id db.users ≡ some u =
              find-by_id (has_email email) db.users u d by_email_u in
            let by_email' : find_by_email email (update user_id u.id g db.users) ≡ some (g u) =
              find-update_kept (has_email email) u.id g db.users u (λ x. refl) by_email_u found in
            let matched_u : compare password u.password_hash ≡ true = rw same matched in
            rw (e, by_email', validate_user, matched_u) refl
      ]
