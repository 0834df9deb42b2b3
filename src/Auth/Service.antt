-- ===== src/Auth/Service.antt =====
-- `AuthService`. The JSON column of the roles is the list that `normalizeRoles` makes of it.
use crypto_sim_backend.Common.{
  ℕ, if◌then◌else◌, Bool, true, false, not, List, [], ◌∷◌, any, Option, none, some, get_or, or_else,
  Text, text, Result, ok, err, ◌>>=◌, ◌>>◌, throw_if, or_throw,
}
use crypto_sim_backend.Common.Table.{find_unique}
use crypto_sim_backend.Database.{Database, User, user_id, VerificationStatus}
use crypto_sim_backend.Users.Ids.{UserError, generate_unique_user_id}
use crypto_sim_backend.Users.Service.{has_email, find_by_email, new_user, insert_user, write_user}
use crypto_sim_backend.Email.Service.{
  Mailer, EmailConfig, EmailError, EmailVerificationType, verify_code,
}
use crypto_sim_backend.Auth.Libraries.{Bcrypt, Jwt}

pub data AuthError : Type 0 where
  email_registered unauthorized user_not_found wrong_old_password missing_row : AuthError
  verification : EmailError → AuthError
  identifier : UserError → AuthError

pub record RegisterDto : Type 0 where
  pub email : Text
  pub password : Text
  pub display_name : Text
  pub phone_number : Option Text
  pub avatar : Option Text
  pub roles : Option (List Text)
  pub verification_code : Text

pub record AuthTokens : Type 0 where
  pub access_token : Text
  pub refresh_token : Text

-- `ip || null`
abbrev pub or_null : Option Text → Option Text
or_null (some (c ∷ s)) = some (c ∷ s)
or_null _ = none

pub data IdCardType : Type 0 where
  front back passport : IdCardType

pub record UpdateProfileDto : Type 0 where
  pub display_name : Option Text
  pub phone_number : Option Text
  pub avatar : Option Text

abbrev pub photo_row : IdCardType → Text → User → User
photo_row IdCardType.front url u = record u {
  id_card_front = some url;
  document_type = some (text "id_card");
}
photo_row IdCardType.back url u = record u {
  id_card_back = some url;
  document_type = some (text "id_card");
}
photo_row IdCardType.passport url u = record u {
  passport_photo = some url;
  document_type = some (text "passport");
}

abbrev pub is_verified : VerificationStatus → Bool
is_verified VerificationStatus.verified = true
is_verified VerificationStatus.pending = false
is_verified VerificationStatus.in_review = false
is_verified VerificationStatus.rejected = false

-- `current` is the status of the user that the request was authenticated with.
abbrev pub with_photo : IdCardType → Text → VerificationStatus → User → User
with_photo type url current u =
    if is_verified current
    then photo_row type url u
    else record (photo_row type url u) { verification_status = VerificationStatus.in_review }

abbrev pub write_or : AuthError → ℕ → (User → User) → Database → Result AuthError Database
write_or e id g db = do u ← or_throw (find_unique user_id id db.users) e; ok (write_user id g db)

unfoldable pub upload_id_card :
    ℕ → IdCardType → Text → VerificationStatus → Database → Result AuthError Database
upload_id_card id type url current db =
    write_or AuthError.missing_row id (with_photo type url current) db

unfoldable pub revoke_tokens : ℕ → Database → Result AuthError Database
revoke_tokens id db =
    write_or AuthError.missing_row id (λ u. record u { refresh_token_hash = none }) db

unfoldable pub update_phone_number : ℕ → Text → Database → Result AuthError Database
update_phone_number id phone db =
    write_or AuthError.user_not_found id (λ u. record u { phone_number = some phone }) db

unfoldable pub update_profile : ℕ → UpdateProfileDto → Database → Result AuthError Database
update_profile id dto db =
    write_or AuthError.user_not_found id
      (λ u. record u {
        display_name = get_or dto.display_name u.display_name;
        phone_number = or_else dto.phone_number u.phone_number;
        avatar = or_else dto.avatar u.avatar;
      })
      db

unfoldable pub update_avatar : ℕ → Text → Database → Result AuthError Database
update_avatar id url db =
    write_or AuthError.user_not_found id (λ u. record u { avatar = some url }) db

abbrev pub of_email : Mailer → Result EmailError Mailer → Result AuthError Mailer
of_email m (ok m') = ok m'
of_email m (err e) = err (AuthError.verification e)

module _ (b : Bcrypt) where
  open b use {hash, compare}

  abbrev pub registered_user : ℕ → ℕ → ℕ → RegisterDto → User
  registered_user now salt id dto =
      record (new_user now id dto.email dto.display_name (hash salt dto.password)) {
        phone_number = dto.phone_number;
        avatar = dto.avatar;
        roles = get_or dto.roles (text "trader" ∷ []);
      }

  -- What comes after the code is used up.
  abbrev pub insert_registered :
      ℕ
      → ℕ
      → RegisterDto
      → Database
      → Mailer
      → Result UserError ℕ
      → (Database × Mailer) × Result AuthError User
  insert_registered now salt dto db m (err e) = ((db, m), err (AuthError.identifier e))
  insert_registered now salt dto db m (ok id) =
      ((insert_user (registered_user now salt id dto) db, m), ok (registered_user now salt id dto))

  unfoldable pub register :
      EmailConfig
      → ℕ
      → ℕ
      → (ℕ → ℕ)
      → RegisterDto
      → Database
      → Mailer
      → (Database × Mailer) × Result AuthError User
  register config now salt draws dto db m =
      if any (has_email dto.email) db.users
      then ((db, m), err AuthError.email_registered)
      else elim (verify_code config now dto.email dto.verification_code
          EmailVerificationType.register m) [
            | err e ↦ ((db, m), err (AuthError.verification e))
            | ok m' ↦ insert_registered now salt dto db m' (generate_unique_user_id draws db.users)
          ]

  abbrev pub if_matches : Text → User → Option User
  if_matches password u = if compare password u.password_hash then some u else none

  unfoldable pub validate_user : Text → Text → Database → Option User
  validate_user email password db = elim (find_by_email email db.users) [
    | none ↦ none
    | some u ↦ if_matches password u
  ]

  unfoldable pub change_password : ℕ → ℕ → Text → Text → Database → Result AuthError Database
  change_password salt id old_password new_password db = do
    u ← or_throw (find_unique user_id id db.users) AuthError.user_not_found
    throw_if (not (compare old_password u.password_hash)) AuthError.wrong_old_password
    ok (write_user id (λ x. record x { password_hash = hash salt new_password }) db)

  module _ (j : Jwt) where
    open j use {sign_access, sign_refresh, verify_refresh}

    abbrev pub tokens_of : ℕ → User → AuthTokens
    tokens_of now u = record {
      access_token = sign_access now u.id u.email u.roles;
      refresh_token = sign_refresh now u.id u.email;
    }

    abbrev pub set_refresh : ℕ → AuthTokens → User → User
    set_refresh salt tokens u = record u {
      refresh_token_hash = some (hash salt tokens.refresh_token);
    }

    -- The tokens, and the table with the hash of the refresh token.
    abbrev pub generate_and_persist_tokens : ℕ → ℕ → User → Database → AuthTokens × Database
    generate_and_persist_tokens now salt u db =
        (tokens_of now u, write_user u.id (set_refresh salt (tokens_of now u)) db)

    abbrev pub note_login : ℕ → Option Text → User → User
    note_login now ip u = record u { last_login_at = some now; last_login_ip = or_null ip }

    unfoldable pub login :
        ℕ → ℕ → ℕ → Option Text → Database → Result AuthError (AuthTokens × Database)
    login now salt id ip db = do
      u ← or_throw (find_unique user_id id db.users) AuthError.missing_row
      ok (
          generate_and_persist_tokens now salt (note_login now ip u)
            (write_user id (note_login now ip) db))

    abbrev pub matches : Text → Option Text → Bool
    matches token none = false
    matches token (some h) = compare token h

    unfoldable pub refresh_tokens :
        ℕ → ℕ → Text → Database → Result AuthError (AuthTokens × Database)
    refresh_tokens now salt token db = do
      id ← or_throw (verify_refresh now token) AuthError.unauthorized
      u ← or_throw (find_unique user_id id db.users) AuthError.unauthorized
      throw_if (not (matches token u.refresh_token_hash)) AuthError.unauthorized
      ok (generate_and_persist_tokens now salt u db)
