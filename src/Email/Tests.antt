-- ===== src/Email/Tests.antt =====
-- The theorems on codes at concrete calls.
use crypto_sim_backend.Common.{◌≡◌, refl, [], ◌∷◌, true, text, ok, err, arith}
use crypto_sim_backend.Samples.{start}
use crypto_sim_backend.Email.Service.{
  Mailer, EmailConfig, EmailError, EmailVerificationType, new_code, store_code,
  update_send_timestamp, send_verification_code, verify_code, write_code, use_up,
}
use crypto_sim_backend.Email.Codes.{IsSingle, verify-once, send-newest, guess, guess_uncounted}
use crypto_sim_backend.Email.Runs.{Step, Steps, run-IsSingle}

abbrev config : EmailConfig
config = record { resend_interval = 60; expires_in = 600; max_attempts = 5 }

abbrev quiet : Mailer
quiet = record { verifications = []; send_timestamps = [] }

abbrev kind : EmailVerificationType
kind = EmailVerificationType.security

abbrev sent : Mailer
sent =
    update_send_timestamp 1000 (text "a@b.c") kind
      (store_code (new_code config 1000 5 (text "123456") (text "a@b.c") kind) quiet)

quiet-IsSingle : IsSingle quiet
quiet-IsSingle = record { at_most_one = λ email type. omega arith; keyed = tt }

run-IsSingle_example : IsSingle sent
unfolding send_verification_code
run-IsSingle_example =
    run-IsSingle {config = config}
      (Steps.next Steps.done
        (Step.sends {m = quiet} start.users true 1000 5 (text "123456") (text "a@b.c") kind refl))
      quiet-IsSingle

verify-once_example :
    verify_code config 1200 (text "a@b.c") (text "123456") kind (write_code 5 use_up sent)
    ≡ err EmailError.invalid_or_used
unfolding verify_code
verify-once_example =
    verify-once config 1100 1200 (text "a@b.c") (text "123456") (text "123456") kind sent
      (write_code 5 use_up sent) run-IsSingle_example refl

send-newest_example :
    (verify_code config 2000 (text "a@b.c") (text "654321") kind sent
      ≡ err EmailError.invalid_or_used)
    × (verify_code config 2000 (text "a@b.c") (text "123456") kind sent
        ≡ ok (write_code 5 use_up sent))
unfolding send_verification_code
send-newest_example =
    send-newest config start.users 1000 5 2000 600 (text "a@b.c") (text "123456") (text "654321")
      kind quiet sent refl (omega arith) refl (omega arith)

guess_uncounted_example :
    guess config 2000 (text "a@b.c") kind (text "111111" ∷ text "222222" ∷ []) sent ≡ sent
guess_uncounted_example =
    guess_uncounted config 2000 (text "a@b.c") kind (text "111111" ∷ text "222222" ∷ []) sent
      (refl, (refl, tt))
