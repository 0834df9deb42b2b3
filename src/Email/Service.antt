-- ===== src/Email/Service.antt =====
-- `EmailVerificationService`. Rows stand the newest first. A call may throw after it has written, so
-- each returns the state and the outcome.
use crypto_sim_backend.Common.{
  ℕ, ◌+◌, ◌*◌, ◌/◌, ◌%◌, ltb, leb, ◌==◌, if◌then◌else◌, Bool, true, false, not, ◌&&◌, List, [], ◌∷◌,
  ◌++◌, any, find?, filter, Option, none, some, Text, text, text_eq, Result, ok, err, ◌>>=◌, ◌>>◌,
  throw_if, or_throw,
}
use crypto_sim_backend.Common.Table.{update, update_many}
use crypto_sim_backend.Database.{User}
use crypto_sim_backend.Users.Service.{has_email}

pub data EmailVerificationType : Type 0 where
  register reset_password change_email security : EmailVerificationType

pub record EmailVerification : Type 0 where
  pub id : ℕ
  pub email : Text
  pub code : Text
  pub type : EmailVerificationType
  pub used : Bool
  pub attempts : ℕ
  pub expires_at : ℕ
  pub created_at : ℕ

abbrev pub verification_key : EmailVerification → ℕ
verification_key v = v.id

-- The table, and the map of the times at which codes were sent.
pub record Mailer : Type 0 where
  pub verifications : List EmailVerification
  pub send_timestamps : List (Text × ℕ)

pub data EmailError : Type 0 where
  already_registered too_frequent mail_failed invalid_or_used expired too_many_attempts : EmailError

-- Seconds, seconds and a count.
pub record EmailConfig : Type 0 where
  pub resend_interval : ℕ
  pub expires_in : ℕ
  pub max_attempts : ℕ

abbrev pub digit : ℕ → ℕ
digit n = b'0' + n % 10

-- `Math.floor(100000 + Math.random() * 900000).toString()`, at the number below 900000 that the random
-- number gives.
unfoldable pub generate_verification_code : ℕ → Text
generate_verification_code r =
    let n = 100000 + r in
    digit (n / 100000)
    ∷ digit (n / 10000)
    ∷ digit (n / 1000)
    ∷ digit (n / 100)
    ∷ digit (n / 10)
    ∷ digit n
    ∷ []

abbrev pub type_text : EmailVerificationType → Text
type_text EmailVerificationType.register = text "REGISTER"
type_text EmailVerificationType.reset_password = text "RESET_PASSWORD"
type_text EmailVerificationType.change_email = text "CHANGE_EMAIL"
type_text EmailVerificationType.security = text "SECURITY"

abbrev pub same_type : EmailVerificationType → EmailVerificationType → Bool
same_type a b = text_eq (type_text a) (type_text b)

abbrev pub is_register : EmailVerificationType → Bool
is_register EmailVerificationType.register = true
is_register EmailVerificationType.reset_password = false
is_register EmailVerificationType.change_email = false
is_register EmailVerificationType.security = false

-- `${email}:${type}`
abbrev pub timestamp_key : Text → EmailVerificationType → Text
timestamp_key email type = email ++ (b':' ∷ type_text type)

abbrev pub sent_at : Text → List (Text × ℕ) → Option ℕ
sent_at key [] = none
sent_at key ((k, t) ∷ rest) = if text_eq k key then some t else sent_at key rest

-- A time of 0 counts as none.
abbrev pub is_recent : EmailConfig → ℕ → Option ℕ → Bool
is_recent config now none = false
is_recent config now (some t) =
    if t == 0 then false else ltb now (t + config.resend_interval * 1000)

abbrev pub check_send_frequency :
    EmailConfig → ℕ → Text → EmailVerificationType → Mailer → Result EmailError (Unit {0})
check_send_frequency config now email type m =
    throw_if (is_recent config now (sent_at (timestamp_key email type) m.send_timestamps))
      EmailError.too_frequent

abbrev pub update_send_timestamp : ℕ → Text → EmailVerificationType → Mailer → Mailer
update_send_timestamp now email type m = record m {
  send_timestamps = (timestamp_key email type, now) ∷ m.send_timestamps;
}

-- What the timer of an hour does.
unfoldable pub forget_timestamp : Text → EmailVerificationType → Mailer → Mailer
forget_timestamp email type m = record m {
  send_timestamps = filter (λ e. not (text_eq e.0 (timestamp_key email type))) m.send_timestamps;
}

abbrev pub is_unused : Text → EmailVerificationType → EmailVerification → Bool
is_unused email type v = text_eq v.email email && same_type v.type type && not v.used

abbrev pub use_up : EmailVerification → EmailVerification
use_up v = record v { used = true }

abbrev pub new_code : EmailConfig → ℕ → ℕ → Text → Text → EmailVerificationType → EmailVerification
new_code config now id code email type = record {
  id = id;
  email = email;
  code = code;
  type = type;
  used = false;
  attempts = 0;
  expires_at = now + config.expires_in * 1000;
  created_at = now;
}

abbrev pub store_code : EmailVerification → Mailer → Mailer
store_code v m = record m {
  verifications = v ∷ update_many (is_unused v.email v.type) use_up m.verifications;
}

-- The checks that come before any write.
abbrev pub check_send :
    EmailConfig
    → List User
    → ℕ
    → Text
    → EmailVerificationType
    → Mailer
    → Result EmailError (Unit {0})
check_send config users now email type m = do
  throw_if (is_register type && any (has_email email) users) EmailError.already_registered
  check_send_frequency config now email type m

-- `delivered` says whether the mail goes out. The seconds until the code expires are answered.
unfoldable pub send_verification_code :
    EmailConfig
    → List User
    → Bool
    → ℕ
    → ℕ
    → Text
    → Text
    → EmailVerificationType
    → Mailer
    → Mailer × Result EmailError ℕ
send_verification_code config users delivered now id code email type m =
    elim (check_send config users now email type m) [
      | err e ↦ (m, err e)
      | ok u ↦
          let stored = store_code (new_code config now id code email type) m in
          if delivered
          then (update_send_timestamp now email type stored, ok config.expires_in)
          else (stored, err EmailError.mail_failed)
    ]

abbrev pub is_code : Text → Text → EmailVerificationType → EmailVerification → Bool
is_code email code type v = is_unused email type v && text_eq v.code code

abbrev pub find_code :
    Text → Text → EmailVerificationType → List EmailVerification → Option EmailVerification
find_code email code type vs = find? (is_code email code type) vs

abbrev pub write_code : ℕ → (EmailVerification → EmailVerification) → Mailer → Mailer
write_code id g m = record m { verifications = update verification_key id g m.verifications }

unfoldable pub verify_code :
    EmailConfig → ℕ → Text → Text → EmailVerificationType → Mailer → Result EmailError Mailer
verify_code config now email code type m = do
  v ← or_throw (find_code email code type m.verifications) EmailError.invalid_or_used
  throw_if (ltb v.expires_at now) EmailError.expired
  throw_if (leb config.max_attempts v.attempts) EmailError.too_many_attempts
  ok (write_code v.id use_up m)

abbrev pub count_attempt : EmailVerification → EmailVerification
count_attempt v = record v { attempts = v.attempts + 1 }

unfoldable pub record_failed_attempt : Text → Text → EmailVerificationType → Mailer → Mailer
record_failed_attempt email code type m = elim (find_code email code type m.verifications) [
  | none ↦ m
  | some v ↦ write_code v.id count_attempt m
]

-- The route `verify-code`: a refusal is recorded, and thrown again.
unfoldable pub verify_code_route :
    EmailConfig
    → ℕ
    → Text
    → Text
    → EmailVerificationType
    → Mailer
    → Mailer × Result EmailError (Unit {0})
verify_code_route config now email code type m = elim (verify_code config now email code type m) [
  | ok m' ↦ (m', ok tt)
  | err e ↦ (record_failed_attempt email code type m, err e)
]

unfoldable pub cleanup_expired_codes : ℕ → Mailer → Mailer
cleanup_expired_codes now m = record m {
  verifications = filter (λ v. leb now v.expires_at) m.verifications;
}
