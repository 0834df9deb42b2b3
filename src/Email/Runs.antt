-- ===== src/Email/Runs.antt =====
-- Sequences of calls of the service.
use crypto_sim_backend.Common.{
  ℕ, ◌≤◌, ◌≡◌, refl, leb, ◌==◌, Bool, List, [], ◌∷◌, count, filter, none, Text, text_eq-eq, ok,
  Bool-cases, Option-cases, Result-cases, inl, inr, arith,
}
use crypto_sim_backend.Common.Table.{find_unique, update, update_many, bit}
use crypto_sim_backend.Database.{User}
use crypto_sim_backend.Email.Service.{
  EmailVerification, EmailVerificationType, verification_key, Mailer, EmailConfig, is_unused,
  find_code, use_up, new_code, store_code, forget_timestamp, check_send, send_verification_code,
  verify_code, record_failed_attempt, cleanup_expired_codes, write_code, count_attempt, type_text,
  verify_code_route,
}
use crypto_sim_backend.Email.Codes.{IsKeyed, IsSingle, count-use_up}

find-new :
    (j k : ℕ) (g : EmailVerification → EmailVerification) (vs : List EmailVerification)
    → ((v : EmailVerification) → (g v).id ≡ v.id)
    → find_unique verification_key j vs ≡ none
    → find_unique verification_key j (update verification_key k g vs) ≡ none
find-new j k g [] same h = refl
find-new j k g (v ∷ vs) same h = ground (arith, same v, find-new j k g vs same)

update-IsKeyed :
    (k : ℕ) (g : EmailVerification → EmailVerification) (vs : List EmailVerification)
    → ((v : EmailVerification) → (g v).id ≡ v.id)
    → IsKeyed vs
    → IsKeyed (update verification_key k g vs)
update-IsKeyed k g [] same i = tt
update-IsKeyed k g (v ∷ vs) same i = elim (Bool-cases (v.id == k)) [
  | inl hit ↦ rw hit (rw (same v) i.0, i.1)
  | inr miss ↦ rw miss (find-new v.id k g vs same i.0, update-IsKeyed k g vs same i.1)
]

find-use_up :
    (j : ℕ) (p : EmailVerification → Bool) (vs : List EmailVerification)
    → find_unique verification_key j vs ≡ none
    → find_unique verification_key j (update_many p use_up vs) ≡ none
find-use_up j p [] h = refl
find-use_up j p (v ∷ vs) h = elim (Bool-cases (p v)) [
  | inl hit ↦ rw hit (ground (arith, find-use_up j p vs))
  | inr miss ↦ rw miss (ground (arith, find-use_up j p vs))
]

use_up-IsKeyed :
    (p : EmailVerification → Bool) (vs : List EmailVerification)
    → IsKeyed vs
    → IsKeyed (update_many p use_up vs)
use_up-IsKeyed p [] i = tt
use_up-IsKeyed p (v ∷ vs) i = elim (Bool-cases (p v)) [
  | inl hit ↦ rw hit (find-use_up v.id p vs i.0, use_up-IsKeyed p vs i.1)
  | inr miss ↦ rw miss (find-use_up v.id p vs i.0, use_up-IsKeyed p vs i.1)
]

find-filter :
    (j : ℕ) (p : EmailVerification → Bool) (vs : List EmailVerification)
    → find_unique verification_key j vs ≡ none
    → find_unique verification_key j (filter p vs) ≡ none
find-filter j p [] h = refl
find-filter j p (v ∷ vs) h = ground (arith, find-filter j p vs)

filter-IsKeyed :
    (p : EmailVerification → Bool) (vs : List EmailVerification)
    → IsKeyed vs
    → IsKeyed (filter p vs)
filter-IsKeyed p [] i = tt
filter-IsKeyed p (v ∷ vs) i = elim (Bool-cases (p v)) [
  | inl hit ↦ rw hit (find-filter v.id p vs i.0, filter-IsKeyed p vs i.1)
  | inr miss ↦ rw miss (filter-IsKeyed p vs i.1)
]

count-filter-le :
    (q p : EmailVerification → Bool) (vs : List EmailVerification)
    → count q (filter p vs) ≤ count q vs
count-filter-le q p [] = omega arith
count-filter-le q p (v ∷ vs) = ground (arith, count-filter-le q p vs)

count-update-le :
    (p : EmailVerification → Bool) (k : ℕ) (g : EmailVerification → EmailVerification)
    (vs : List EmailVerification)
    → ((v : EmailVerification) → bit (p (g v)) ≤ bit (p v))
    → count p (update verification_key k g vs) ≤ count p vs
count-update-le p k g [] less = omega arith
count-update-le p k g (v ∷ vs) less = ground (arith, less v, count-update-le p k g vs less)

count-use_up_same :
    (email e : Text) (type t : EmailVerificationType) (vs : List EmailVerification)
    → e ≡ email
    → type_text t ≡ type_text type
    → count (is_unused email type) (update_many (is_unused e t) use_up vs) ≡ 0
count-use_up_same email e type t [] p q = refl
count-use_up_same email e type t (v ∷ vs) p q = elim (Bool-cases (is_unused email type v)) [
  | inl hit ↦ rw (p, q, hit) (ground (arith, count-use_up_same email e type t vs p q))
  | inr miss ↦ rw (p, q, miss) (rw miss (count-use_up_same email e type t vs p q))
]

store_code-IsSingle :
    (v : EmailVerification) (m : Mailer)
    → find_unique verification_key v.id m.verifications ≡ none
    → IsSingle m
    → IsSingle (store_code v m)
store_code-IsSingle v m fresh i = record {
  at_most_one = λ email type. elim (Bool-cases (is_unused email type v)) [
    | inl hit ↦ rw hit (
        ground (
          arith,
          count-use_up_same email v.email type v.type m.verifications
              (text_eq-eq v.email email (ground arith))
              (text_eq-eq (type_text v.type) (type_text type) (ground arith)),
        ))
    | inr miss ↦ rw miss (
        ground
          (arith, i.at_most_one email type, count-use_up email v.email type v.type m.verifications))
  ];
  keyed = (
    find-use_up v.id (is_unused v.email v.type) m.verifications fresh,
    use_up-IsKeyed (is_unused v.email v.type) m.verifications i.keyed,
  );
}

-- A call of the service, and the timer that forgets when a code was sent. The identifier of a new row
-- is one that no row has.
pub data Step (config : EmailConfig) : Mailer → Mailer → Type 0 where
  sends :
      {m : Mailer} (users : List User) (delivered : Bool) (now id : ℕ) (code email : Text)
      (type : EmailVerificationType)
      → find_unique verification_key id m.verifications ≡ none
      → Step config m (send_verification_code config users delivered now id code email type m).0
  verifies :
      {m : Mailer} (now : ℕ) (email code : Text) (type : EmailVerificationType)
      → Step config m (verify_code_route config now email code type m).0
  registers :
      {m m' : Mailer} (now : ℕ) (email code : Text) (type : EmailVerificationType)
      → verify_code config now email code type m ≡ ok m'
      → Step config m m'
  forgets :
      {m : Mailer} (email : Text) (type : EmailVerificationType)
      → Step config m (forget_timestamp email type m)
  cleans : {m : Mailer} (now : ℕ) → Step config m (cleanup_expired_codes now m)

pub data Steps (config : EmailConfig) (m : Mailer) : Mailer → Type 0 where
  done : Steps config m m
  next : {n o : Mailer} → Steps config m n → Step config n o → Steps config m o

sends-IsSingle :
    (config : EmailConfig) (users : List User) (delivered : Bool) (now id : ℕ) (code email : Text)
    (type : EmailVerificationType) (m : Mailer)
    → find_unique verification_key id m.verifications ≡ none
    → IsSingle m
    → IsSingle (send_verification_code config users delivered now id code email type m).0
unfolding send_verification_code
sends-IsSingle config users delivered now id code email type m fresh i =
    let j = store_code-IsSingle (new_code config now id code email type) m fresh i in
    elim (Result-cases (check_send config users now email type m)) [
      | inr (e, refused) ↦ rw (refused, send_verification_code) i
      | inl (u, passed) ↦ elim (Bool-cases delivered) [
        | inl sent ↦
            rw (passed, sent, send_verification_code)
              (record { at_most_one = j.at_most_one; keyed = j.keyed })
        | inr lost ↦ rw (passed, lost, send_verification_code) j
      ]
    ]

write-IsSingle :
    (id : ℕ) (g : EmailVerification → EmailVerification) (m : Mailer)
    → ((v : EmailVerification) → (g v).id ≡ v.id)
    → ((email : Text) (type : EmailVerificationType) (v : EmailVerification)
        → bit (is_unused email type (g v)) ≤ bit (is_unused email type v))
    → IsSingle m
    → IsSingle (write_code id g m)
write-IsSingle id g m same less i = record {
  at_most_one = λ email type. omega (
    arith,
    i.at_most_one email type,
    count-update-le (is_unused email type) id g m.verifications (less email type),
  );
  keyed = update-IsKeyed id g m.verifications same i.keyed;
}

use_up-less :
    (email : Text) (type : EmailVerificationType) (v : EmailVerification)
    → bit (is_unused email type (use_up v)) ≤ bit (is_unused email type v)
use_up-less email type v = ground arith

verify-IsSingle :
    (config : EmailConfig) (now : ℕ) (email code : Text) (type : EmailVerificationType)
    (m m' : Mailer)
    → verify_code config now email code type m ≡ ok m'
    → IsSingle m
    → IsSingle m'
unfolding verify_code
verify-IsSingle config now email code type m m' h i =
    elim (Option-cases (find_code email code type m.verifications)) [
      | inl missing ↦ absurd (ground arith)
      | inr (v, found) ↦
          let e : m' ≡ write_code v.id use_up m = ground arith in
          rw e (write-IsSingle v.id use_up m (λ x. refl) use_up-less i)
    ]

failed-IsSingle :
    (email code : Text) (type : EmailVerificationType) (m : Mailer)
    → IsSingle m
    → IsSingle (record_failed_attempt email code type m)
unfolding record_failed_attempt
failed-IsSingle email code type m i =
    elim (Option-cases (find_code email code type m.verifications)) [
      | inl missing ↦ rw (missing, record_failed_attempt) i
      | inr (v, found) ↦
          rw (found, record_failed_attempt)
            (write-IsSingle v.id count_attempt m (λ x. refl) (λ e t x. omega arith) i)
    ]

route-IsSingle :
    (config : EmailConfig) (now : ℕ) (email code : Text) (type : EmailVerificationType) (m : Mailer)
    → IsSingle m
    → IsSingle (verify_code_route config now email code type m).0
unfolding verify_code_route
route-IsSingle config now email code type m i =
    elim (Result-cases (verify_code config now email code type m)) [
      | inl (m', passed) ↦
          rw (passed, verify_code_route) (verify-IsSingle config now email code type m m' passed i)
      | inr (e, refused) ↦ rw (refused, verify_code_route) (failed-IsSingle email code type m i)
    ]

Step-IsSingle : {config : EmailConfig} {m n : Mailer} → Step config m n → IsSingle m → IsSingle n
unfolding forget_timestamp cleanup_expired_codes
Step-IsSingle {config} (sends {m} users delivered now id code email type fresh) i =
    sends-IsSingle config users delivered now id code email type m fresh i
Step-IsSingle {config} (verifies {m} now email code type) i =
    route-IsSingle config now email code type m i
Step-IsSingle {config} (registers {m} {m'} now email code type h) i =
    verify-IsSingle config now email code type m m' h i
Step-IsSingle (forgets email type) i = record { at_most_one = i.at_most_one; keyed = i.keyed }
Step-IsSingle (cleans {m} now) i = record {
  at_most_one = λ email type. omega (
    arith,
    i.at_most_one email type,
    count-filter-le (is_unused email type) (λ v. leb now v.expires_at) m.verifications,
  );
  keyed = filter-IsKeyed (λ v. leb now v.expires_at) m.verifications i.keyed;
}

-- Along every sequence of calls, failed ones included, an address has at most one unused code of a
-- type, and identifiers stay unique, if so it is at the start.
pub run-IsSingle :
    {config : EmailConfig} {m n : Mailer} → Steps config m n → IsSingle m → IsSingle n
run-IsSingle done i = i
run-IsSingle (next r st) i = Step-IsSingle st (run-IsSingle r i)
