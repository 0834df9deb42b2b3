-- ===== src/Transactions/Reasons.antt =====
-- The instruction that `forceSettleTransaction` leaves in the column `manualAdjustmentReason`: a
-- prefix and the JSON text of a configuration. `JSON.stringify` and `JSON.parse` are a parameter.
use crypto_sim_backend.Common.{
  ℕ, ℤ, ◌≡◌, ◌↔◌, refl, sym, ap, ◌∙◌, ◌++◌, ◌∷◌, [], arith, Option, none, some, Text, text,
  starts_with, true, starts_with-append, drop, length, if◌then◌else◌, Option-cases, Bool-cases, inl,
  inr,
}
use crypto_sim_backend.Transactions.Inputs.{ForcedResult}

-- `exit_price` is `none` where it is missing and `some none` where it is `null`. `operator_id` is `none` where it is missing or the empty string.
pub record PendingForceSettleConfig : Type 0 where
  pub result : Option ForcedResult
  pub exit_price : Option (Option ℤ)
  pub reason : Option Text
  pub operator_id : Option ℕ
  pub operator_name : Option Text
  pub marked_at : ℕ

-- `JSON.parse` read at the configuration's type; `none` where it throws or gives a falsy value.
-- Its law: what `JSON.stringify` wrote of a configuration is read back.
pub record Json : Type 0 where
  pub stringify : PendingForceSettleConfig → Text
  pub parse : Text → Option PendingForceSettleConfig
  pub parse-stringify : (c : PendingForceSettleConfig) → parse (stringify c) ≡ some c

abbrev pub pending_force_settle_prefix : Text
pending_force_settle_prefix = text "__PENDING_FORCE_SETTLE__"

drop-append : (p s : Text) → drop (length p) (p ++ s) ≡ s
drop-append [] [] = refl
drop-append [] (d ∷ s) = refl
drop-append (c ∷ p) s = drop-append p s

starts_with-drop : (p s : Text) → starts_with p s ≡ true → s ≡ p ++ drop (length p) s
starts_with-drop [] [] h = refl
starts_with-drop [] (d ∷ s) h = refl
starts_with-drop (c ∷ p) [] h = absurd (ground arith)
starts_with-drop (c ∷ p) (d ∷ s) h =
    let both : (c ≡ d) × (starts_with p s ≡ true) = (ground arith, ground arith) in
    rw (both.0) (ap (λ l. d ∷ l) (starts_with-drop p s both.1))

module _ (json : Json) where
  unfoldable pub build_pending_force_settle_reason : PendingForceSettleConfig → Text
  build_pending_force_settle_reason c = pending_force_settle_prefix ++ json.stringify c

  -- `!parsed || !parsed.operatorId`
  abbrev pub with_operator : Option PendingForceSettleConfig → Option PendingForceSettleConfig
  with_operator none = none
  with_operator (some c) = elim c.operator_id [ none ↦ none | some o ↦ some c ]

  abbrev pub parse_behind : Text → Text → Option PendingForceSettleConfig
  parse_behind prefix reason =
      if starts_with prefix reason
      then with_operator (json.parse (drop (length prefix) reason))
      else none

  unfoldable pub parse_pending_force_settle_reason : Option Text → Option PendingForceSettleConfig
  parse_pending_force_settle_reason none = none
  parse_pending_force_settle_reason (some reason) = parse_behind pending_force_settle_prefix reason

  parse_behind-append :
      (prefix payload : Text)
      → parse_behind prefix (prefix ++ payload) ≡ with_operator (json.parse payload)
  parse_behind-append prefix payload =
      rw (starts_with-append prefix payload, drop-append prefix payload) refl

  parse_prefixed :
      (payload : Text)
      → parse_pending_force_settle_reason (some (pending_force_settle_prefix ++ payload))
        ≡ with_operator (json.parse payload)
  unfolding parse_pending_force_settle_reason
  parse_prefixed payload = parse_behind-append pending_force_settle_prefix payload

  with_operator-named :
      (c : PendingForceSettleConfig) (operator : ℕ)
      → c.operator_id ≡ some operator
      → with_operator (some c) ≡ some c
  with_operator-named c operator h = ground arith

  -- An instruction that names its operator is read back as it was written.
  pub parse-build :
      (c : PendingForceSettleConfig) (operator : ℕ)
      → c.operator_id ≡ some operator
      → parse_pending_force_settle_reason (some (build_pending_force_settle_reason c)) ≡ some c
  unfolding build_pending_force_settle_reason
  parse-build c operator h =
      parse_prefixed (json.stringify c)
      ∙ ap with_operator (json.parse-stringify c)
      ∙ with_operator-named c operator h

  with_operator-some :
      (o : Option PendingForceSettleConfig) (c : PendingForceSettleConfig)
      → with_operator o ≡ some c
      → (operator : ℕ) × (o ≡ some c) × (c.operator_id ≡ some operator)
  with_operator-some none c h = absurd (ground arith)
  with_operator-some (some d) c h = elim (Option-cases d.operator_id) [
    | inl missing ↦ absurd (ground arith)
    | inr (operator, named) ↦
        let e : d ≡ c = ground arith in
        (operator, ap some e, ap (λ (x : PendingForceSettleConfig). x.operator_id) (sym e) ∙ named)
  ]

  -- The column holds an instruction exactly where its text is the prefix and, behind it, what
  -- `JSON.parse` reads as that instruction, and the instruction names an operator. Every other text,
  -- and a column without one, holds none.
  pub parse_pending_force_settle_reason_iff :
      (reason : Option Text) (c : PendingForceSettleConfig)
      → (parse_pending_force_settle_reason reason ≡ some c) ↔ (
          (payload : Text) × (operator : ℕ) × (reason
            ≡ some (pending_force_settle_prefix ++ payload))
          × (json.parse payload ≡ some c)
          × (c.operator_id ≡ some operator))
  unfolding parse_pending_force_settle_reason
  parse_pending_force_settle_reason_iff reason c = (read reason, written)
    where
      read :
          (r : Option Text)
          → parse_pending_force_settle_reason r ≡ some c
          → (payload : Text) × (operator : ℕ) × (r ≡ some (pending_force_settle_prefix ++ payload))
            × (json.parse payload ≡ some c)
            × (c.operator_id ≡ some operator)
      read none h = absurd (ground arith)
      read (some t) h =
          let payload = drop (length pending_force_settle_prefix) t in
          elim (Bool-cases (starts_with pending_force_settle_prefix t)) [
            | inr other ↦ absurd (ground arith)
            | inl begins ↦
                let found = with_operator-some (json.parse payload) c (rw begins at h) in
                (
                  payload,
                  found.0,
                  ap some (starts_with-drop pending_force_settle_prefix t begins),
                  found.1,
                  found.2,
                )
          ]

      written :
          (payload : Text) × (operator : ℕ) × (reason
              ≡ some (pending_force_settle_prefix ++ payload))
            × (json.parse payload ≡ some c)
            × (c.operator_id ≡ some operator)
          → parse_pending_force_settle_reason reason ≡ some c
      written w =
          ap parse_pending_force_settle_reason w.2
          ∙ parse_prefixed w.0
          ∙ ap with_operator w.3
          ∙ with_operator-named c w.1 w.4
