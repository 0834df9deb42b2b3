-- ===== src/TradingManagement/Tests.antt =====
-- A managed session through its states, and the theorems on managed sessions at concrete calls.
use crypto_sim_backend.Common.{
  ℕ, ◌≡◌, refl, false, [], ◌∷◌, none, some, text, Text, All, ok, err, arith, Option,
}
use crypto_sim_backend.Samples.{alice, start}
use crypto_sim_backend.Database.{Database, TradingSession, TradingCycle, TradingSessionStatus}
use crypto_sim_backend.TradingManagement.{
  TradingError, CreateTradingSessionDto, new_session, next_cycle, is_unfinished_of, failed_cycle,
  create_session, stop_session, pause_session, resume_session,
}
use crypto_sim_backend.TradingManagement.Completion.{RoundFault, handle_cycle_completion}
use crypto_sim_backend.TradingManagement.Listing.{find_one_session}
use crypto_sim_backend.TradingManagement.Numbers.{IsNumbered, handle_cycle_completion-IsNumbered}
use crypto_sim_backend.TradingManagement.Sessions.{
  IsSingle, stop_session-final, create_session-IsSingle,
}

abbrev request : CreateTradingSessionDto
request = record {
  user_id = 1;
  cycle_interval_sec = 60;
  asset_type = text "BTC/USDT";
  account_type = none;
}

abbrev price : Text → Option ℕ
price s = some 45000

abbrev session : TradingSession
session = new_session 3 request 9 none alice.display_name

abbrev created : Database
created = record start {
  trading_sessions = session ∷ [];
  trading_cycles = next_cycle 1000 4 (some 45000) session [] ∷ [];
}

created_lem : create_session 1000 3 4 price request 9 none start ≡ ok (session, created)
unfolding create_session
created_lem = refl

create_session-IsSingle_example : IsSingle created.trading_sessions
create_session-IsSingle_example =
    create_session-IsSingle 1000 3 4 price request 9 none start (session, created) created_lem
      (λ uid. omega arith)

abbrev stopped_session : TradingSession
stopped_session = record session { status = TradingSessionStatus.stopped; stopped_at = some 2000 }

abbrev stopped : Database
stopped = record created {
  trading_sessions = stopped_session ∷ [];
  trading_cycles = failed_cycle (next_cycle 1000 4 (some 45000) session []) ∷ [];
}

stopped_lem : stop_session 2000 3 created ≡ ok (stopped_session, stopped)
unfolding stop_session
stopped_lem = refl

stop_session-final_example :
    All (λ c. is_unfinished_of 3 c ≡ false) stopped.trading_cycles
    × ((later : ℕ) → stop_session later 3 stopped ≡ err TradingError.not_active)
    × (pause_session 3 stopped ≡ err TradingError.not_active)
    × (resume_session 3 stopped ≡ err TradingError.not_paused)
stop_session-final_example =
    stop_session-final 2000 3 created (stopped_session, stopped) stopped_lem

handle_cycle_completion-IsNumbered_example :
    IsNumbered
      (handle_cycle_completion
        (λ k. 70000)
        (λ k. 100)
        price
        (λ k. RoundFault.at_creation)
        70000
        created).trading_cycles
handle_cycle_completion-IsNumbered_example =
    handle_cycle_completion-IsNumbered (λ k. 70000) (λ k. 100) price (λ k. RoundFault.at_creation)
      70000 created (tt, tt)

-- A session that is resumed while another one of the user is active.
abbrev resumed : Database
resumed = record start {
  trading_sessions = session ∷ record session { id = 5; status = TradingSessionStatus.paused } ∷ [];
}

resumed_twice :
    resume_session 5 resumed
    ≡ ok (
      record session { id = 5 },
      record start { trading_sessions = session ∷ record session { id = 5 } ∷ [] },
    )
unfolding resume_session
resumed_twice = refl

abbrev first_cycle : TradingCycle
first_cycle = next_cycle 1000 4 (some 45000) session []

-- The cycles of a session, the latest first.
latest_listed :
    find_one_session 3 (record start {
      trading_sessions = session ∷ [];
      trading_cycles = first_cycle ∷ record first_cycle { id = 6; cycle_number = 7 } ∷ [];
    })
    ≡ ok (session, record first_cycle { id = 6; cycle_number = 7 } ∷ first_cycle ∷ [])
unfolding find_one_session
latest_listed = refl
