-- ===== src/Auth/Accounts.antt =====
-- Identifiers and addresses of users along the calls that write the table of users.
use crypto_sim_backend.Common.{
  ℕ, ◌≡◌, refl, any, List, some, Text, ok, Option-cases, Bool-cases, Result-cases, inl, inr, arith,
}
use crypto_sim_backend.Common.Table.{find_unique}
use crypto_sim_backend.Database.{Database, User, user_id, AccountType, set_balance, balance_of}
use crypto_sim_backend.Users.Ids.{generate_unique_user_id, generate-fresh}
use crypto_sim_backend.Users.Service.{
  CreateUserDto, UpdateUserDto, AdjustmentType, create_custom_user, update_user, updated_user,
  adjust_balance, adjusted, remove, reset_password, has_email, parse_verification_status,
  check_new_email, insert_user, write_user, delete_user,
}
use crypto_sim_backend.Users.Operators
use crypto_sim_backend.Users.Operators.{
  CreateOperatorDto, UpdateOperatorDto, update_operator, updated_operator, remove_operator,
  find_custom,
}
use crypto_sim_backend.Users.Distinct.{
  IsDistinct, keep-IsDistinct, readdress-IsDistinct, delete-IsDistinct,
}
use crypto_sim_backend.Email.Service.{Mailer, EmailConfig, EmailVerificationType, verify_code}
use crypto_sim_backend.Auth.Libraries.{Bcrypt}
use crypto_sim_backend.Auth.Service.{RegisterDto, register}

-- A call that goes through; the last is a registration, whatever its outcome.
pub data Change (hash : Text → Text) (b : Bcrypt) : Database → Database → Type 0 where
  creates :
      {db : Database} {r : User × Database} (now : ℕ) (draws : ℕ → ℕ) (dto : CreateUserDto) (by : ℕ)
      → create_custom_user hash now draws dto by db ≡ ok r
      → Change hash b db r.1
  creates_operator :
      {db : Database} {r : User × Database} (password : Text) (now : ℕ) (draws : ℕ → ℕ)
      (dto : CreateOperatorDto) (admin : ℕ)
      → Operators.create password now draws dto admin db ≡ ok r
      → Change hash b db r.1
  updates :
      {db db' : Database} (id : ℕ) (dto : UpdateUserDto)
      → update_user id dto db ≡ ok db'
      → Change hash b db db'
  updates_operator :
      {db db' : Database} (id : ℕ) (dto : UpdateOperatorDto)
      → update_operator id dto db ≡ ok db'
      → Change hash b db db'
  adjusts :
      {db db' : Database} (id : ℕ) (account : AccountType) (type : AdjustmentType) (amount : ℕ)
      → adjust_balance id account type amount db ≡ ok db'
      → Change hash b db db'
  resets :
      {db db' : Database} (id : ℕ) (password : Text)
      → reset_password hash id password db ≡ ok db'
      → Change hash b db db'
  removes : {db db' : Database} (id : ℕ) → remove id db ≡ ok db' → Change hash b db db'
  removes_operator :
      {db db' : Database} (id : ℕ) → remove_operator id db ≡ ok db' → Change hash b db db'
  registers :
      {db : Database} (config : EmailConfig) (now salt : ℕ) (draws : ℕ → ℕ) (dto : RegisterDto)
      (m : Mailer)
      → Change hash b db (register b config now salt draws dto db m).0.0

pub data Changes (hash : Text → Text) (b : Bcrypt) (db : Database) : Database → Type 0 where
  done : Changes hash b db db
  next :
      {db' db'' : Database}
      → Changes hash b db db'
      → Change hash b db' db''
      → Changes hash b db db''

not_found_custom :
    (id : ℕ) (us : List User) (u : User)
    → find_custom id us ≡ some u
    → find_unique user_id id us ≡ some u
not_found_custom id us u h = elim (Option-cases (find_unique user_id id us)) [
  | inl missing ↦ absurd (ground arith)
  | inr (v, found) ↦ ground arith
]

creates-IsDistinct :
    (hash : Text → Text) (now : ℕ) (draws : ℕ → ℕ) (dto : CreateUserDto) (by : ℕ) (db : Database)
    (r : User × Database)
    → create_custom_user hash now draws dto by db ≡ ok r
    → IsDistinct db.users
    → IsDistinct r.1.users
unfolding create_custom_user
creates-IsDistinct hash now draws dto by db r h d =
    elim (Bool-cases (any (has_email dto.email) db.users)) [
      | inl taken ↦ absurd (ground arith)
      | inr free ↦ elim (Option-cases (parse_verification_status dto.verification_status)) [
        | inl unknown ↦ absurd (ground arith)
        | inr (status, known) ↦ elim (Result-cases (generate_unique_user_id draws db.users)) [
          | inr (e, full) ↦ absurd (ground arith)
          | inl (id, drawn) ↦
              let e : r.1 ≡ insert_user r.0 db = ground arith in
              let at : r.0.id ≡ id = ground arith in
              let to : r.0.email ≡ dto.email = ground arith in
              rw (e, at, to) (generate-fresh draws db.users id drawn, free, d)
        ]
      ]
    ]

creates_operator-IsDistinct :
    (password : Text) (now : ℕ) (draws : ℕ → ℕ) (dto : CreateOperatorDto) (admin : ℕ)
    (db : Database) (r : User × Database)
    → Operators.create password now draws dto admin db ≡ ok r
    → IsDistinct db.users
    → IsDistinct r.1.users
unfolding Operators.create
creates_operator-IsDistinct password now draws dto admin db r h d =
    elim (Bool-cases (any (has_email dto.email) db.users)) [
      | inl taken ↦ absurd (ground arith)
      | inr free ↦ elim (Result-cases (generate_unique_user_id draws db.users)) [
        | inr (e, full) ↦ absurd (ground arith)
        | inl (id, drawn) ↦
            let e : r.1 ≡ insert_user r.0 db = ground arith in
            let at : r.0.id ≡ id = ground arith in
            let to : r.0.email ≡ dto.email = ground arith in
            rw (e, at, to) (generate-fresh draws db.users id drawn, free, d)
      ]
    ]

updates-IsDistinct :
    (id : ℕ) (dto : UpdateUserDto) (db db' : Database)
    → update_user id dto db ≡ ok db'
    → IsDistinct db.users
    → IsDistinct db'.users
unfolding update_user
updates-IsDistinct id dto db db' h d = elim (Option-cases (find_unique user_id id db.users)) [
  | inl missing ↦ absurd (ground arith)
  | inr (u, found) ↦ elim (Result-cases (check_new_email dto.email u db.users)) [
    | inr (e, refused) ↦ absurd (ground arith)
    | inl (tt, passed) ↦
        let e : db' ≡ write_user id (updated_user dto) db = ground arith in
        rw e (
          readdress-IsDistinct id dto.email (updated_user dto) db.users u found passed (λ x. refl)
            (λ x. refl) d)
  ]
]

updates_operator-IsDistinct :
    (id : ℕ) (dto : UpdateOperatorDto) (db db' : Database)
    → update_operator id dto db ≡ ok db'
    → IsDistinct db.users
    → IsDistinct db'.users
unfolding update_operator
updates_operator-IsDistinct id dto db db' h d = elim (Option-cases (find_custom id db.users)) [
  | inl missing ↦ absurd (ground arith)
  | inr (u, found) ↦ elim (Result-cases (check_new_email dto.email u db.users)) [
    | inr (e, refused) ↦ absurd (ground arith)
    | inl (tt, passed) ↦
        let e : db' ≡ write_user id (updated_operator dto) db = ground arith in
        rw e (
          readdress-IsDistinct id dto.email (updated_operator dto) db.users u
            (not_found_custom id db.users u found) passed (λ x. refl) (λ x. refl) d)
  ]
]

same_key :
    (account : AccountType) (balance : _) (u : User)
    → ((set_balance account balance u).id ≡ u.id)
      × ((set_balance account balance u).email ≡ u.email)
same_key AccountType.demo balance u = (refl, refl)
same_key AccountType.real balance u = (refl, refl)

adjusts-IsDistinct :
    (id : ℕ) (account : AccountType) (type : AdjustmentType) (amount : ℕ) (db db' : Database)
    → adjust_balance id account type amount db ≡ ok db'
    → IsDistinct db.users
    → IsDistinct db'.users
unfolding adjust_balance
adjusts-IsDistinct id account type amount db db' h d =
    elim (Option-cases (find_unique user_id id db.users)) [
      | inl missing ↦ absurd (ground arith)
      | inr (u, found) ↦ elim (Result-cases (adjusted type amount (balance_of account u))) [
        | inr (e, refused) ↦ absurd (ground arith)
        | inl (balance, passed) ↦
            let e : db' ≡ write_user id (set_balance account balance) db = ground arith in
            rw e (
              keep-IsDistinct id (set_balance account balance) db.users
                (λ x. (same_key account balance x).0) (λ x. (same_key account balance x).1) d)
      ]
    ]

resets-IsDistinct :
    (hash : Text → Text) (id : ℕ) (password : Text) (db db' : Database)
    → reset_password hash id password db ≡ ok db'
    → IsDistinct db.users
    → IsDistinct db'.users
unfolding reset_password
resets-IsDistinct hash id password db db' h d =
    elim (Option-cases (find_unique user_id id db.users)) [
      | inl missing ↦ absurd (ground arith)
      | inr (u, found) ↦
          let e : db' ≡ write_user id (λ x. record x { password_hash = hash password }) db =
            ground arith in
          rw e (
            keep-IsDistinct id (λ x. record x { password_hash = hash password }) db.users
              (λ x. refl) (λ x. refl) d)
    ]

removes-IsDistinct :
    (id : ℕ) (db db' : Database)
    → remove id db ≡ ok db'
    → IsDistinct db.users
    → IsDistinct db'.users
unfolding remove
removes-IsDistinct id db db' h d = elim (Option-cases (find_unique user_id id db.users)) [
  | inl missing ↦ absurd (ground arith)
  | inr (u, found) ↦
      let e : db' ≡ delete_user id db = ground arith in rw e (delete-IsDistinct id db.users d)
]

removes_operator-IsDistinct :
    (id : ℕ) (db db' : Database)
    → remove_operator id db ≡ ok db'
    → IsDistinct db.users
    → IsDistinct db'.users
unfolding remove_operator
removes_operator-IsDistinct id db db' h d = elim (Option-cases (find_custom id db.users)) [
  | inl missing ↦ absurd (ground arith)
  | inr (u, found) ↦
      let e : db' ≡ delete_user id db = ground arith in rw e (delete-IsDistinct id db.users d)
]

registers-IsDistinct :
    (b : Bcrypt) (config : EmailConfig) (now salt : ℕ) (draws : ℕ → ℕ) (dto : RegisterDto)
    (db : Database) (m : Mailer)
    → IsDistinct db.users
    → IsDistinct (register b config now salt draws dto db m).0.0.users
unfolding register
registers-IsDistinct b config now salt draws dto db m d =
    elim (Bool-cases (any (has_email dto.email) db.users)) [
      | inl taken ↦ rw (taken, register) d
      | inr free ↦
          elim (Result-cases (
            verify_code config now dto.email dto.verification_code EmailVerificationType.register
              m)) [
                | inr (e, refused) ↦ rw (free, refused, register) d
                | inl (m', verified) ↦
                    elim (Result-cases (generate_unique_user_id draws db.users)) [
                      | inr (e, full) ↦ rw (free, verified, full, register) d
                      | inl (id, drawn) ↦
                          rw (free, verified, drawn, register)
                            (generate-fresh draws db.users id drawn, free, d)
                    ]
              ]
    ]

Change-IsDistinct :
    {hash : Text → Text} {b : Bcrypt} {db db' : Database}
    → Change hash b db db'
    → IsDistinct db.users
    → IsDistinct db'.users
Change-IsDistinct {hash} (creates {db} {r} now draws dto by h) d =
    creates-IsDistinct hash now draws dto by db r h d
Change-IsDistinct (creates_operator {db} {r} password now draws dto admin h) d =
    creates_operator-IsDistinct password now draws dto admin db r h d
Change-IsDistinct (updates {db} {db'} id dto h) d = updates-IsDistinct id dto db db' h d
Change-IsDistinct (updates_operator {db} {db'} id dto h) d =
    updates_operator-IsDistinct id dto db db' h d
Change-IsDistinct (adjusts {db} {db'} id account type amount h) d =
    adjusts-IsDistinct id account type amount db db' h d
Change-IsDistinct {hash} (resets {db} {db'} id password h) d =
    resets-IsDistinct hash id password db db' h d
Change-IsDistinct (removes {db} {db'} id h) d = removes-IsDistinct id db db' h d
Change-IsDistinct (removes_operator {db} {db'} id h) d = removes_operator-IsDistinct id db db' h d
Change-IsDistinct {b} (registers {db} config now salt draws dto m) d =
    registers-IsDistinct b config now salt draws dto db m d

-- Along every sequence of registrations and of calls that create, update, adjust, reset or remove users
-- and operators, no two users share an identifier or an address, if none do at the start.
pub Changes-IsDistinct :
    {hash : Text → Text} {b : Bcrypt} {db db' : Database}
    → Changes hash b db db'
    → IsDistinct db.users
    → IsDistinct db'.users
Changes-IsDistinct done d = d
Changes-IsDistinct (next r c) d = Change-IsDistinct c (Changes-IsDistinct r d)
