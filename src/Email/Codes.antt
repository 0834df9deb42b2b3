-- ===== src/Email/Codes.antt =====
-- A code is good once, and only the newest one is.
use crypto_sim_backend.Common.{
  All, ℕ, ◌+◌, ◌*◌, ◌≤◌, ◌<◌, ◌≡◌, refl, ◌==◌, Bool, true, false, List, [], ◌∷◌, count, find?, none,
  some, Text, text_eq, text_eq_refl, ok, err, Bool-cases, ==_iff, Option-cases, Result-cases, inl,
  inr, arith, find?-passes,
}
use crypto_sim_backend.Common.Table.{find_unique, update_many, count-update}
use crypto_sim_backend.Database.{User}
use crypto_sim_backend.Email.Service.{
  EmailVerification, EmailVerificationType, verification_key, Mailer, EmailConfig, EmailError,
  is_unused, is_code, find_code, use_up, new_code, store_code, check_send, send_verification_code,
  verify_code, record_failed_attempt, write_code, type_text, verify_code_route,
}

-- Nobody behind a row has its identifier.
abbrev pub IsKeyed : List EmailVerification → Type 0
IsKeyed [] = Unit
IsKeyed (v ∷ vs) = (find_unique verification_key v.id vs ≡ none) × IsKeyed vs

-- Every address has at most one unused code of a type, and identifiers are unique.
pub record IsSingle (m : Mailer) : Type 0 where
  pub at_most_one :
      (email : Text) (type : EmailVerificationType)
      → count (is_unused email type) m.verifications ≤ 1
  pub keyed : IsKeyed m.verifications

none≢found :
    {j k : ℕ} (vs : List EmailVerification) (v : EmailVerification)
    → j ≡ k
    → find_unique verification_key j vs ≡ none
    → find_unique verification_key k vs ≡ some v
    → ⊥
none≢found vs v e missing found = cc

find?-find_unique :
    (p : EmailVerification → Bool) (vs : List EmailVerification) (v : EmailVerification)
    → IsKeyed vs
    → find? p vs ≡ some v
    → find_unique verification_key v.id vs ≡ some v
find?-find_unique p [] v k h = cc
find?-find_unique p (w ∷ vs) v k h = elim (Bool-cases (p w)) [
  | inl hit ↦ ground arith
  | inr miss ↦ elim (Bool-cases (w.id == v.id)) [
    | inl same ↦
        let later : find_unique verification_key v.id vs ≡ some v =
          find?-find_unique p vs v k.1 (rw miss at h) in
        let at_w : w.id ≡ v.id = (==_iff w.id v.id).0 same in
        absurd (none≢found vs v at_w k.0 later)
    | inr other ↦ rw other (find?-find_unique p vs v k.1 (rw miss at h))
  ]
]

-- Codes that are used up are no more than they were.
pub count-use_up :
    (email e : Text) (type t : EmailVerificationType) (vs : List EmailVerification)
    → count (is_unused email type) (update_many (is_unused e t) use_up vs)
      ≤ count (is_unused email type) vs
count-use_up email e type t [] = omega arith
count-use_up email e type t (v ∷ vs) = elim (Bool-cases (is_unused e t v)) [
  | inl hit ↦ rw hit (ground (arith, count-use_up email e type t vs))
  | inr miss ↦ rw miss (ground (arith, count-use_up email e type t vs))
]

count-use_up_self :
    (email : Text) (type : EmailVerificationType) (vs : List EmailVerification)
    → count (is_unused email type) (update_many (is_unused email type) use_up vs) ≡ 0
count-use_up_self email type [] = refl
count-use_up_self email type (v ∷ vs) = elim (Bool-cases (is_unused email type v)) [
  | inl hit ↦ rw hit (ground (arith, count-use_up_self email type vs))
  | inr miss ↦ rw miss (rw miss (count-use_up_self email type vs))
]

no_code :
    (email code : Text) (type : EmailVerificationType) (vs : List EmailVerification)
    → count (is_unused email type) vs ≡ 0
    → find_code email code type vs ≡ none
no_code email code type [] h = refl
no_code email code type (v ∷ vs) h = elim (Bool-cases (is_unused email type v)) [
  | inl hit ↦ absurd (ground arith)
  | inr miss ↦ rw miss (no_code email code type vs (rw miss at h))
]

-- Marking the row that a search found leaves one unused code less.
module _ (email code : Text) (type : EmailVerificationType) (m : Mailer) (v : EmailVerification)
    (i : IsSingle m) (found : find_code email code type m.verifications ≡ some v) where
  used_up : count (is_unused email type) (write_code v.id use_up m).verifications ≡ 0
  used_up =
      let unused : is_unused email type v ≡ true =
        ground (arith, find?-passes (is_code email code type) m.verifications v) in
      ground (
        arith,
        i.at_most_one email type,
        count-update verification_key (is_unused email type) v.id use_up m.verifications v,
        find?-find_unique (is_code email code type) m.verifications v i.keyed found,
      )

pub is_code-new :
    (config : EmailConfig) (now id : ℕ) (code email other : Text) (type : EmailVerificationType)
    → is_code email other type (new_code config now id code email type) ≡ text_eq code other
is_code-new config now id code email other type =
    rw (text_eq_refl email, text_eq_refl (type_text type)) refl

-- A code is good once: where every address has at most one unused code of a type, and identifiers are
-- unique, no code of the address and the type verifies after one did, until a new one is sent.
pub verify-once :
    (config : EmailConfig) (now later : ℕ) (email code other : Text) (type : EmailVerificationType)
    (m m' : Mailer)
    → IsSingle m
    → verify_code config now email code type m ≡ ok m'
    → verify_code config later email other type m' ≡ err EmailError.invalid_or_used
unfolding verify_code
verify-once config now later email code other type m m' i h =
    elim (Option-cases (find_code email code type m.verifications)) [
      | inl missing ↦ absurd (ground arith)
      | inr (v, found) ↦
          let e : m' ≡ write_code v.id use_up m = ground arith in
          rw e (
            rw
              (no_code email other type (write_code v.id use_up m).verifications
                (used_up email code type m v i found))
              refl)
    ]

-- Only the newest code is good: after a code is sent, another code is refused for the address and the
-- type, and the sent one verifies until it expires.
pub send-newest :
    (config : EmailConfig) (users : List User) (now id later n : ℕ) (email code other : Text)
    (type : EmailVerificationType) (m m' : Mailer)
    → send_verification_code config users true now id code email type m ≡ (m', ok n)
    → 0 < config.max_attempts
    → text_eq code other ≡ false
    → later ≤ now + config.expires_in * 1000
    → (verify_code config later email other type m' ≡ err EmailError.invalid_or_used)
      × (verify_code config later email code type m' ≡ ok (write_code id use_up m'))
unfolding send_verification_code verify_code
send-newest config users now id later n email code other type m m' h limit differs early =
    elim (Result-cases (check_send config users now email type m)) [
      | inr (e, refused) ↦ absurd (ground arith)
      | inl (u, passed) ↦
          let e : m'.verifications
              ≡ (store_code (new_code config now id code email type) m).verifications =
            ground arith in
          let none_left : find_code email other type
                (update_many (is_unused email type) use_up m.verifications)
              ≡ none =
            no_code email other type (update_many (is_unused email type) use_up m.verifications)
              (count-use_up_self email type m.verifications) in
          rw e (
            rw (is_code-new config now id code email other type, differs, none_left) refl,
            rw (is_code-new config now id code email code type, text_eq_refl code) (ground arith),
          )
    ]

-- The route, called with one code after the other.
pub guess : EmailConfig → ℕ → Text → EmailVerificationType → List Text → Mailer → Mailer
guess config now email type [] m = m
guess config now email type (code ∷ codes) m =
    guess config now email type codes (verify_code_route config now email code type m).0

-- Wrong guesses are not counted: however many codes are tried that no unused row of the address and
-- the type has, every row stays as it is, its number of attempts included.
pub guess_uncounted :
    (config : EmailConfig) (now : ℕ) (email : Text) (type : EmailVerificationType)
    (codes : List Text) (m : Mailer)
    → All (λ code. find_code email code type m.verifications ≡ none) codes
    → guess config now email type codes m ≡ m
unfolding guess verify_code_route verify_code record_failed_attempt
guess_uncounted config now email type [] m wrong = refl
guess_uncounted config now email type (code ∷ codes) m (miss, wrong) =
    let once : (verify_code_route config now email code type m).0 ≡ m = ground arith in
    rw once (guess_uncounted config now email type codes m wrong)
