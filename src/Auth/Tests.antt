-- ===== src/Auth/Tests.antt =====
-- A hash that keeps what bcrypt reads, tokens that all begin with the same 72 signs, and the theorems
-- on logins at concrete calls.
use crypto_sim_backend.Common.{
  ℕ, ◌+◌, ◌<◌, ◌≤◌, ◌≡◌, refl, true, [], ◌∷◌, ◌++◌, Option, none, some, Text, text, text_eq, drop,
  if◌then◌else◌, ltb, lt→ltb, ok, err, arith,
}
use crypto_sim_backend.Samples.{alice, start}
use crypto_sim_backend.Database.{Database, User}
use crypto_sim_backend.Users.Distinct.{IsDistinct}
use crypto_sim_backend.Users.Service.{write_user, UpdateUserDto, update_user, updated_user}
use crypto_sim_backend.Auth.Libraries.{read_bytes, Bcrypt, Jwt}
use crypto_sim_backend.Auth.Service.{
  AuthTokens, AuthError, login, refresh_tokens, revoke_tokens, validate_user, change_password,
  generate_and_persist_tokens, note_login,
}
use crypto_sim_backend.Auth.Admins.{Admin, delete_admin}
use crypto_sim_backend.Auth.LastAdmin.{active_count, delete_admin-active}
use crypto_sim_backend.Auth.Sessions.{
  login-refresh, revoke-refresh, refresh-stale, change_password-validate,
}
use crypto_sim_backend.Auth.Accounts.{Change, Changes, Changes-IsDistinct}

abbrev bcrypt : Bcrypt
bcrypt = record {
  hash = λ salt value. read_bytes value;
  compare = λ value h. text_eq (read_bytes value) h;
  compare-hash = λ salt value other. refl;
}

abbrev head_of_token : Text
head_of_token = text "eyJhbGciOiJIUzI1NiIsInR5cCI6IkpXVCJ9.eyJzdWIiOiJBYmMxMjMiLCJlbWFpbCI6Imx"

abbrev claims : ℕ → Text → Option ℕ
claims now (issued ∷ id ∷ rest) = if ltb now (issued + 1000) then some id else none
claims now _ = none

abbrev sign : ℕ → ℕ → Text
sign issued id = head_of_token ++ (issued ∷ id ∷ [])

verify-signed :
    (issued now id : ℕ) → now < issued + 1000 → claims now (drop 72 (sign issued id)) ≡ some id
verify-signed issued now id h = rw (lt→ltb now (issued + 1000) h)

abbrev jwt : Jwt
jwt = record {
  refresh_ttl = 1000;
  sign_access = λ issued id email roles. sign issued id;
  sign_refresh = λ issued id email. sign issued id;
  verify_refresh = λ now token. claims now (drop 72 token);
  verify-sign = λ issued now id email h. verify-signed issued now id h;
}

abbrev noted : User
noted = note_login bcrypt jwt 100 none alice

abbrev logged_in : AuthTokens × Database
logged_in =
    generate_and_persist_tokens bcrypt jwt 100 0 noted
      (write_user 1 (note_login bcrypt jwt 100 none) start)

login-refresh_example :
    (s : AuthTokens × Database) × (refresh_tokens bcrypt jwt 300 0 logged_in.0.refresh_token
        logged_in.1
      ≡ ok s)
unfolding login
login-refresh_example =
    login-refresh bcrypt jwt 100 0 300 0 1 none start logged_in refl (omega arith)

abbrev logged_out : Database
logged_out = write_user 1 (λ u. record u { refresh_token_hash = none }) logged_in.1

revoke-refresh_example :
    refresh_tokens bcrypt jwt 300 0 logged_in.0.refresh_token logged_out
    ≡ err AuthError.unauthorized
unfolding revoke_tokens
revoke-refresh_example =
    revoke-refresh bcrypt jwt 300 0 1 logged_in.0.refresh_token logged_in.1 logged_out refl refl

abbrev owner : User
owner = record noted { refresh_token_hash = some (read_bytes (sign 100 1)) }

abbrev refreshed : AuthTokens × Database
refreshed = generate_and_persist_tokens bcrypt jwt 300 0 owner logged_in.1

refresh-stale_example :
    (s : AuthTokens × Database) × (refresh_tokens bcrypt jwt 400 0 (sign 100 1) refreshed.1 ≡ ok s)
unfolding refresh_tokens
refresh-stale_example =
    refresh-stale bcrypt jwt 300 0 400 0 1 (sign 100 1) logged_in.1 refreshed refl refl refl refl

abbrev renewed : Database
renewed = write_user 1 (λ u. record u { password_hash = text "secret2" }) start

change_password-validate_example :
    validate_user bcrypt (text "alice@example.com") (text "hash") renewed ≡ (
      if text_eq (read_bytes (text "hash")) (read_bytes (text "secret2"))
      then some (record alice { password_hash = text "secret2" })
      else none)
unfolding change_password
change_password-validate_example =
    change_password-validate bcrypt 0 (text "alice@example.com") (text "hash") (text "secret2")
      (text "hash") start renewed alice (refl, refl, tt) refl refl

abbrev root : Admin
root = record {
  id = 1;
  username = text "root";
  email = text "root@example.com";
  display_name = text "root";
  password_hash = text "p";
  refresh_token_hash = none;
  permissions = text "*" ∷ [];
  is_active = true;
  last_login_at = none;
  last_login_ip = none;
  remark = none;
  created_at = 0;
}

delete_admin-active_example : 1 ≤ active_count (root ∷ [])
unfolding delete_admin
delete_admin-active_example =
    delete_admin-active 2
      (root ∷ record root { id = 2; username = text "second"; email = text "s@example.com" } ∷ [])
      (root ∷ []) refl

abbrev readdressed : UpdateUserDto
readdressed = record {
  email = some (text "alice@example.org");
  display_name = none;
  phone_number = none;
  avatar = none;
  is_active = none;
  verification_status = none;
  admin_remark = none;
}

Changes-IsDistinct_example : IsDistinct (write_user 1 (updated_user readdressed) start).users
unfolding update_user
Changes-IsDistinct_example =
    Changes-IsDistinct {hash = λ s. s} {b = bcrypt}
      (Changes.next Changes.done (
        Change.updates {db = start} {db' = write_user 1 (updated_user readdressed) start} 1
          readdressed refl))
      (refl, refl, tt)
