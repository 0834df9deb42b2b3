-- ===== src/MarketSessions/Lifecycle.antt =====
-- The life of a market session, whatever is called in whatever order: its status only moves forward.
use mathlib.Core.Path.{subst}
use crypto_sim_backend.Common.{
  ℕ, ◌≤◌, ◌≡◌, refl, sym, ap, ◌∙◌, true, ◌==◌, List, [], ◌∷◌, some, Text, Bool-cases, Option-cases,
  inl, inr, arith, Result, ok, err,
}
use crypto_sim_backend.Common.Table.{
  find_unique, update, key_of_found, find-update_self, find-update_row_ne,
}
use crypto_sim_backend.Database.{
  Database, MarketSession, MarketSessionStatus, session_key, is_active,
}
use crypto_sim_backend.MarketSessions.{
  MarketSessionError, UpdateMarketSessionDto, is_not_started, find_one, start, stop, update_session,
  updated_session,
}

pub data Call : Type 0 where
  starts : ℕ → Call
  stops : ℕ → Call
  updates : ℕ → UpdateMarketSessionDto → Call

abbrev pub after : Database → Result MarketSessionError (MarketSession × Database) → Database
after db (ok (s, db')) = db'
after db (err e) = db

module _ (upper : Text → Text) where
  unfoldable pub step : Database → Call → Database
  step db (starts id) = after db (start id db)
  step db (stops id) = after db (stop id db)
  step db (updates id dto) = after db (update_session upper id dto db)

  unfoldable pub run : Database → List Call → Database
  run db [] = db
  run db (c ∷ cs) = run (step db c) cs

-- PENDING, then ACTIVE, then COMPLETED or CANCELED.
abbrev pub rank : MarketSessionStatus → ℕ
rank MarketSessionStatus.pending = 0
rank MarketSessionStatus.active = 1
rank MarketSessionStatus.completed = 2
rank MarketSessionStatus.canceled = 2

-- The session `id` is there, at a rank of at least `n`.
pub record IsPast (id n : ℕ) (db : Database) : Type 0 where
  pub session : MarketSession
  pub found : find_unique session_key id db.market_sessions ≡ some session
  pub past : n ≤ rank session.status

-- A write of a session that does not lower its rank.
IsPast-write :
    (id n k : ℕ) (s row : MarketSession) (db : Database)
    → find_unique session_key k db.market_sessions ≡ some s
    → row.id ≡ s.id
    → rank s.status ≤ rank row.status
    → IsPast id n db
    → IsPast id n
        (record db { market_sessions = update session_key k (λ _. row) db.market_sessions })
IsPast-write id n k s row db found same raised h =
    let key_row : row.id ≡ k = same ∙ key_of_found session_key k db.market_sessions s found in
    elim (Bool-cases (id == k)) [
      | inl hit ↦
          let e : id ≡ k = ground arith in
          let at_id : find_unique session_key id db.market_sessions ≡ some s =
            subst (λ i. find_unique session_key i db.market_sessions ≡ some s) (sym e) found in
          let same_session : h.session ≡ s = let f = h.found in ground (arith, f, at_id) in
          let past = ap (λ x. rank x.status) same_session in
          let low = h.past in
          record {
            session = row;
            found =
                subst
                  (λ i.
                    find_unique session_key i (update session_key k (λ _. row) db.market_sessions)
                    ≡ some row)
                  (sym e)
                  (find-update_self session_key k (λ _. row) db.market_sessions s found key_row);
            past = omega (arith, past, low, raised);
          }
      | inr miss ↦ record {
        session = h.session;
        found =
            find-update_row_ne session_key id k row db.market_sessions (ground arith) key_row
            ∙ h.found;
        past = h.past;
      }
    ]

not_started_rank : (s : MarketSessionStatus) → is_not_started s ≡ true → rank s ≤ 1
not_started_rank s h = ground arith

active_rank : (s : MarketSessionStatus) → is_active s ≡ true → rank s ≤ 2
active_rank s h = ground arith

module _ (upper : Text → Text) (id n : ℕ) where
  start-IsPast : (k : ℕ) (db : Database) → IsPast id n db → IsPast id n (after db (start k db))
  unfolding start find_one
  start-IsPast k db h = elim (Option-cases (find_unique session_key k db.market_sessions)) [
    | inl missing ↦ rw missing h
    | inr (s, found) ↦ elim (Bool-cases (is_not_started s.status)) [
      | inr started ↦ rw (found, started) h
      | inl waiting ↦
          rw (found, waiting)
            (IsPast-write id n k s (record s { status = MarketSessionStatus.active }) db found refl
              (not_started_rank s.status waiting) h)
    ]
  ]

  stop-IsPast : (k : ℕ) (db : Database) → IsPast id n db → IsPast id n (after db (stop k db))
  unfolding stop find_one
  stop-IsPast k db h = elim (Option-cases (find_unique session_key k db.market_sessions)) [
    | inl missing ↦ rw missing h
    | inr (s, found) ↦ elim (Bool-cases (is_active s.status)) [
      | inr idle ↦ rw (found, idle) h
      | inl live ↦
          rw (found, live)
            (IsPast-write id n k s (record s { status = MarketSessionStatus.completed }) db found
              refl (active_rank s.status live) h)
    ]
  ]

  update_session-IsPast :
      (k : ℕ) (dto : UpdateMarketSessionDto) (db : Database)
      → IsPast id n db
      → IsPast id n (after db (update_session upper k dto db))
  unfolding update_session
  update_session-IsPast k dto db h =
      elim (Option-cases (find_unique session_key k db.market_sessions)) [
        | inl missing ↦ rw missing h
        | inr (s, found) ↦
            rw found
              (IsPast-write id n k s (updated_session upper dto s) db found refl (omega arith) h)
      ]

  -- The status of a market session never moves back: what is active or past it stays so, and what is
  -- completed stays completed or canceled, under every sequence of starts, stops and updates of any
  -- sessions, with those that are refused.
  pub run-IsPast : (db : Database) (cs : List Call) → IsPast id n db → IsPast id n (run upper db cs)
  unfolding run step
  run-IsPast db [] h = h
  run-IsPast db (starts k ∷ cs) h = run-IsPast (after db (start k db)) cs (start-IsPast k db h)
  run-IsPast db (stops k ∷ cs) h = run-IsPast (after db (stop k db)) cs (stop-IsPast k db h)
  run-IsPast db (updates k dto ∷ cs) h =
      run-IsPast (after db (update_session upper k dto db)) cs (update_session-IsPast k dto db h)
