-- ===== src/TradingManagement/Sessions.antt =====
-- The states of the managed sessions.
use mathlib.Core.Path.{subst}
use crypto_sim_backend.Common.{
  ℕ, ◌≤◌, ◌≡◌, refl, ap, ◌∙◌, false, ◌==◌, List, [], ◌∷◌, Option, some, All, any, count, Text,
  Bool-cases, Option-cases, inl, inr, arith, ok, err,
}
use crypto_sim_backend.Common.Table.{
  find_unique, update, update_many, key_of_found, find-update_self,
}
use crypto_sim_backend.Database.{
  Database, user_id, TradingSession, TradingSessionStatus, trading_session_key, is_live,
  TradingCycle,
}
use crypto_sim_backend.TradingManagement.{
  TradingError, CreateTradingSessionDto, is_live_of, is_unfinished_of, failed_cycle,
  create_next_cycle, new_session, create_session, stop_session, pause_session, resume_session,
}

none_unfinished :
    (sid : ℕ) (cs : List TradingCycle)
    → All (λ c. is_unfinished_of sid c ≡ false) (update_many (is_unfinished_of sid) failed_cycle cs)
none_unfinished sid [] = tt
none_unfinished sid (c ∷ cs) = (ground arith, none_unfinished sid cs)

-- What a stop that goes through leaves.
record Stopped (sid : ℕ) (db' : Database) : Type 0 where
  s : TradingSession
  found : find_unique trading_session_key sid db'.trading_sessions ≡ some s
  stopped : s.status ≡ TradingSessionStatus.stopped
  cycles : All (λ c. is_unfinished_of sid c ≡ false) db'.trading_cycles

stop_session-Stopped :
    (now sid : ℕ) (db : Database) (r : TradingSession × Database)
    → stop_session now sid db ≡ ok r
    → Stopped sid r.1
unfolding stop_session
stop_session-Stopped now sid db r h =
    elim (Option-cases (find_unique trading_session_key sid db.trading_sessions)) [
      | inl missing ↦ absurd (ground arith)
      | inr (s, found) ↦ elim (Bool-cases (is_live s.status)) [
        | inr idle ↦ absurd (ground arith)
        | inl live ↦
            let row = record s { status = TradingSessionStatus.stopped; stopped_at = some now } in
            let e : r ≡ (
              row,
              record db {
                trading_sessions = update trading_session_key sid (λ _. row) db.trading_sessions;
                trading_cycles = update_many (is_unfinished_of sid) failed_cycle db.trading_cycles;
              },
            ) =
              ground arith in
            rw e (record {
              s = row;
              found =
                  find-update_self trading_session_key sid (λ _. row) db.trading_sessions s found
                    (key_of_found trading_session_key sid db.trading_sessions s found);
              stopped = refl;
              cycles = none_unfinished sid db.trading_cycles;
            })
      ]
    ]

-- A session that was stopped stays stopped: none of its cycles is left pending or running, and every
-- later stop, pause or resume of it is refused.
pub stop_session-final :
    (now sid : ℕ) (db : Database) (r : TradingSession × Database)
    → stop_session now sid db ≡ ok r
    → All (λ c. is_unfinished_of sid c ≡ false) r.1.trading_cycles
      × ((later : ℕ) → stop_session later sid r.1 ≡ err TradingError.not_active)
      × (pause_session sid r.1 ≡ err TradingError.not_active)
      × (resume_session sid r.1 ≡ err TradingError.not_paused)
unfolding stop_session pause_session resume_session
stop_session-final now sid db r h =
    let c = stop_session-Stopped now sid db r h in
    let found = c.found in
    let stopped = c.stopped in
    (
      c.cycles,
      λ later. rw (found, stopped) refl,
      rw (found, stopped) refl,
      rw (found, stopped) refl,
    )

-- At most one session of each user is active.
abbrev pub IsSingle : List TradingSession → Type 0
IsSingle ss = (uid : ℕ) → count (is_live_of uid) ss ≤ 1

count_of_any :
    (uid : ℕ) (ss : List TradingSession)
    → any (is_live_of uid) ss ≡ false
    → count (is_live_of uid) ss ≡ 0
count_of_any uid [] h = refl
count_of_any uid (s ∷ ss) h = ground (arith, count_of_any uid ss)

create_next_cycle-sessions :
    (now id : ℕ) (price : Text → Option ℕ) (sid : ℕ) (db : Database)
    → (create_next_cycle now id price sid db).trading_sessions ≡ db.trading_sessions
create_next_cycle-sessions now id price sid db =
    elim (Option-cases (find_unique trading_session_key sid db.trading_sessions)) [
      | inl missing ↦ rw (missing, create_next_cycle) refl
      | inr (s, found) ↦ elim (Bool-cases (is_live s.status)) [
        | inl live ↦ rw (found, live, create_next_cycle) refl
        | inr idle ↦ rw (found, idle, create_next_cycle) refl
      ]
    ]

alone :
    (dto : CreateTradingSessionDto) (id admin : ℕ) (admin_name : Option Text) (name : Text)
    (ss : List TradingSession)
    → count (is_live_of dto.user_id) ss ≡ 0
    → count (is_live_of dto.user_id) (new_session id dto admin admin_name name ∷ ss) ≤ 1
alone dto id admin admin_name name ss e = ground arith

-- A creation that goes through keeps at most one active session for each user.
pub create_session-IsSingle :
    (now id cycle_id : ℕ) (price : Text → Option ℕ) (dto : CreateTradingSessionDto) (admin : ℕ)
    (admin_name : Option Text) (db : Database) (r : TradingSession × Database)
    → create_session now id cycle_id price dto admin admin_name db ≡ ok r
    → IsSingle db.trading_sessions
    → IsSingle r.1.trading_sessions
unfolding create_session
create_session-IsSingle now id cycle_id price dto admin admin_name db r h single uid =
    elim (Option-cases (find_unique user_id dto.user_id db.users)) [
      | inl missing ↦ absurd (ground arith)
      | inr (u, found) ↦ elim (Bool-cases (any (is_live_of dto.user_id) db.trading_sessions)) [
        | inl busy ↦ absurd (ground arith)
        | inr free ↦
            let s = new_session id dto admin admin_name u.display_name in
            let db' = record db { trading_sessions = s ∷ db.trading_sessions } in
            let e : r ≡ (s, create_next_cycle now cycle_id price id db') = ground arith in
            let kept : r.1.trading_sessions ≡ s ∷ db.trading_sessions =
              ap (λ x. x.1.trading_sessions) e
              ∙ create_next_cycle-sessions now cycle_id price id db' in
            rw kept (elim (Bool-cases (dto.user_id == uid)) [
              | inr other ↦ rw other (single uid)
              | inl hit ↦
                  let same : dto.user_id ≡ uid = ground arith in
                  let zero_before = count_of_any dto.user_id db.trading_sessions free in
                  subst (λ k. count (is_live_of k) (s ∷ db.trading_sessions) ≤ 1) same
                    (alone dto id admin admin_name u.display_name db.trading_sessions zero_before)
            ])
      ]
    ]
