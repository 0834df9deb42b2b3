-- ===== src/Transactions/Tests/Codec.antt =====
-- A concrete text format for the configurations of forced settlements: it has the law that the
-- service relies on, so the law can hold.
use crypto_sim_backend.Common.{
  ℕ, zero, suc, ◌≡◌, refl, ap, ℤ, pos, negsuc, [], ◌∷◌, Option, none, some, Text,
}
use crypto_sim_backend.Transactions.Inputs.{ForcedResult}
use crypto_sim_backend.Transactions.Reasons.{PendingForceSettleConfig, Json}

-- Each character one higher, and a 0 at the end.
abbrev write_chars : Text → Text → Text
write_chars [] rest = 0 ∷ rest
write_chars (c ∷ s) rest = suc c ∷ write_chars s rest

abbrev cons_char : ℕ → Text × Text → Text × Text
cons_char c (s, rest) = (c ∷ s, rest)

abbrev read_chars : Text → Text × Text
read_chars [] = ([], [])
read_chars (zero ∷ rest) = ([], rest)
read_chars (suc c ∷ s) = cons_char c (read_chars s)

read-write_chars : (s rest : Text) → read_chars (write_chars s rest) ≡ (s, rest)
read-write_chars [] rest = refl
read-write_chars (c ∷ s) rest = ap (cons_char c) (read-write_chars s rest)

abbrev write_text : Option Text → Text → Text
write_text none rest = 0 ∷ rest
write_text (some s) rest = 1 ∷ write_chars s rest

abbrev some_chars : Text × Text → Option Text × Text
some_chars (s, rest) = (some s, rest)

abbrev read_text : Text → Option Text × Text
read_text [] = (none, [])
read_text (zero ∷ rest) = (none, rest)
read_text (suc c ∷ rest) = some_chars (read_chars rest)

read-write_text : (o : Option Text) (rest : Text) → read_text (write_text o rest) ≡ (o, rest)
read-write_text none rest = refl
read-write_text (some s) rest = ap some_chars (read-write_chars s rest)

abbrev write_result : Option ForcedResult → ℕ
write_result none = 0
write_result (some ForcedResult.win) = 1
write_result (some ForcedResult.lose) = 2

abbrev read_result : ℕ → Option ForcedResult
read_result zero = none
read_result (suc zero) = some ForcedResult.win
read_result (suc (suc n)) = some ForcedResult.lose

read-write_result : (o : Option ForcedResult) → read_result (write_result o) ≡ o
read-write_result none = refl
read-write_result (some ForcedResult.win) = refl
read-write_result (some ForcedResult.lose) = refl

abbrev write_price : Option (Option ℤ) → Text → Text
write_price none rest = 0 ∷ 0 ∷ rest
write_price (some none) rest = 3 ∷ 0 ∷ rest
write_price (some (some (pos n))) rest = 1 ∷ n ∷ rest
write_price (some (some (negsuc n))) rest = 2 ∷ n ∷ rest

abbrev read_price : ℕ → ℕ → Option (Option ℤ)
read_price zero n = none
read_price (suc zero) n = some (some (pos n))
read_price (suc (suc zero)) n = some (some (negsuc n))
read_price (suc (suc (suc k))) n = some none

abbrev write_id : Option ℕ → Text → Text
write_id none rest = 0 ∷ rest
write_id (some n) rest = suc n ∷ rest

abbrev read_id : ℕ → Option ℕ
read_id zero = none
read_id (suc n) = some n

abbrev pub stringify : PendingForceSettleConfig → Text
stringify c =
    write_result c.result
    ∷ c.marked_at
    ∷ write_price c.exit_price
        (write_id c.operator_id (write_text c.reason (write_text c.operator_name [])))

abbrev assemble : ℕ → ℕ → ℕ → ℕ → ℕ → Option Text × Text → Option PendingForceSettleConfig
assemble r m k n i (reason, rest) = some (record {
  result = read_result r;
  exit_price = read_price k n;
  reason = reason;
  operator_id = read_id i;
  operator_name = (read_text rest).0;
  marked_at = m;
})

abbrev pub parse : Text → Option PendingForceSettleConfig
parse (r ∷ m ∷ k ∷ n ∷ i ∷ rest) = assemble r m k n i (read_text rest)
parse _ = none

texts-read :
    (c : PendingForceSettleConfig) (k n i : ℕ)
    → assemble
        (write_result c.result)
        c.marked_at
        k
        n
        i
        (read_text (write_text c.reason (write_text c.operator_name [])))
      ≡ some (record c { exit_price = read_price k n; operator_id = read_id i })
texts-read c k n i =
    rw
      (
        read-write_text c.reason (write_text c.operator_name []),
        read-write_text c.operator_name [],
        read-write_result c.result,
      )
      refl

prices-read :
    (c : PendingForceSettleConfig) (e : Option (Option ℤ)) (i : Option ℕ)
    → parse (stringify (record c { exit_price = e; operator_id = i }))
      ≡ some (record c { exit_price = e; operator_id = i })
prices-read c none none = texts-read c 0 0 0
prices-read c none (some i) = texts-read c 0 0 (suc i)
prices-read c (some none) none = texts-read c 3 0 0
prices-read c (some none) (some i) = texts-read c 3 0 (suc i)
prices-read c (some (some (pos n))) none = texts-read c 1 n 0
prices-read c (some (some (pos n))) (some i) = texts-read c 1 n (suc i)
prices-read c (some (some (negsuc n))) none = texts-read c 2 n 0
prices-read c (some (some (negsuc n))) (some i) = texts-read c 2 n (suc i)

pub parse_lem : (c : PendingForceSettleConfig) → parse (stringify c) ≡ some c
parse_lem c = prices-read c c.exit_price c.operator_id

abbrev pub codec : Json
codec = record { stringify = stringify; parse = parse; parse-stringify = parse_lem }
