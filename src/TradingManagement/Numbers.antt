-- ===== src/TradingManagement/Numbers.antt =====
-- The numbers of the cycles of a session.
use crypto_sim_backend.Common.{
  refl, sym, ◌∙◌, ℕ, ◌≤◌, ◌≡◌, ◌≢◌, Bool, ◌==◌, List, [], ◌∷◌, Option, All, All-map, filter, Text,
  Bool-cases, Option-cases, inl, inr, arith,
}
use crypto_sim_backend.Common.Table.{find_unique, update}
use crypto_sim_backend.Database.{
  Database, TradingSession, trading_session_key, is_live, TradingCycle, cycle_key,
}
use crypto_sim_backend.TradingManagement.{
  failed_cycle, latest_number, start_cycle, create_next_cycle,
}
use crypto_sim_backend.TradingManagement.Completion.{
  RoundFault, fails_update, fails_creation, fails_mark, mark_failed, complete, completed_cycle,
  complete_cycle, complete_each, handle_cycle_completion, is_due, was_live,
}

-- The cycles of one session have different numbers.
abbrev Differs : TradingCycle → TradingCycle → Type 0
Differs c d = d.trading_session_id ≡ c.trading_session_id → d.cycle_number ≢ c.cycle_number

abbrev pub IsNumbered : List TradingCycle → Type 0
IsNumbered [] = Unit
IsNumbered (c ∷ cs) = All (Differs c) cs × IsNumbered cs

latest_number-bounds :
    (sid : ℕ) (cs : List TradingCycle)
    → All (λ d. d.trading_session_id ≡ sid → d.cycle_number ≤ latest_number sid cs) cs
latest_number-bounds sid [] = tt
latest_number-bounds sid (c ∷ cs) = (
  (λ e. ground arith),
  All-map cs (λ d h e. let b = h e in ground (arith, b)) (latest_number-bounds sid cs),
)

start_cycle-IsNumbered :
    (now id : ℕ) (price : Option ℕ) (s : TradingSession) (db : Database)
    → IsNumbered db.trading_cycles
    → IsNumbered (start_cycle now id price s db).trading_cycles
start_cycle-IsNumbered now id price s db h = elim (Bool-cases (is_live s.status)) [
  | inr idle ↦ rw idle h
  | inl live ↦ rw live (
    All-map db.trading_cycles (λ d b e. let below = b e in omega arith)
        (latest_number-bounds s.id db.trading_cycles),
    h,
  )
]

create_next_cycle-IsNumbered :
    (now id : ℕ) (price : Text → Option ℕ) (sid : ℕ) (db : Database)
    → IsNumbered db.trading_cycles
    → IsNumbered (create_next_cycle now id price sid db).trading_cycles
create_next_cycle-IsNumbered now id price sid db h =
    elim (Option-cases (find_unique trading_session_key sid db.trading_sessions)) [
      | inl missing ↦ rw (missing, create_next_cycle) h
      | inr (s, found) ↦
          rw (found, create_next_cycle) (start_cycle-IsNumbered now id (price s.asset_type) s db h)
    ]

-- A write that keeps the session and the number of a cycle.
record KeepsNumber (g : TradingCycle → TradingCycle) : Type 0 where
  session : (c : TradingCycle) → (g c).trading_session_id ≡ c.trading_session_id
  number : (c : TradingCycle) → (g c).cycle_number ≡ c.cycle_number

Differs-kept :
    (g : TradingCycle → TradingCycle) (c d : TradingCycle)
    → KeepsNumber g
    → Differs c d
    → Differs c (g d) × Differs (g c) d
Differs-kept g c d keep h = (
  (λ e. let n = h (sym (keep.session d) ∙ e) in let m = keep.number d in λ same. n (sym m ∙ same)),
  (λ e. let n = h (e ∙ keep.session c) in let m = keep.number c in λ same. n (same ∙ m)),
)

All-written :
    (g : TradingCycle → TradingCycle) (c : TradingCycle) (k : ℕ) (cs : List TradingCycle)
    → KeepsNumber g
    → All (Differs c) cs
    → All (Differs c) (update cycle_key k g cs)
All-written g c k [] keep h = tt
All-written g c k (d ∷ cs) keep h = elim (Bool-cases (d.id == k)) [
  | inl hit ↦ rw hit ((Differs-kept g c d keep h.0).0, h.1)
  | inr miss ↦ rw miss (h.0, All-written g c k cs keep h.1)
]

written-IsNumbered :
    (g : TradingCycle → TradingCycle) (k : ℕ) (cs : List TradingCycle)
    → KeepsNumber g
    → IsNumbered cs
    → IsNumbered (update cycle_key k g cs)
written-IsNumbered g k [] keep h = tt
written-IsNumbered g k (c ∷ cs) keep h = elim (Bool-cases (c.id == k)) [
  | inl hit ↦ rw hit (All-map cs (λ d x. (Differs-kept g c d keep x).1) h.0, h.1)
  | inr miss ↦ rw miss (All-written g c k cs keep h.0, written-IsNumbered g k cs keep h.1)
]

completed-IsNumbered :
    (k : ℕ) (price : Option ℕ) (cs : List TradingCycle)
    → IsNumbered cs
    → IsNumbered (update cycle_key k (completed_cycle price) cs)
completed-IsNumbered k price cs =
    written-IsNumbered (completed_cycle price) k cs
      (record { session = λ c. refl; number = λ c. refl })

mark_failed-IsNumbered :
    (fault : RoundFault) (c : TradingCycle) (db : Database)
    → IsNumbered db.trading_cycles
    → IsNumbered (mark_failed fault c db).1.trading_cycles
mark_failed-IsNumbered fault c db h = elim (Bool-cases (fails_mark fault)) [
  | inl stops ↦ rw stops h
  | inr marks ↦ rw marks (
      written-IsNumbered failed_cycle c.id db.trading_cycles
        (record { session = λ d. refl; number = λ d. refl }) h)
]

module _ (clock : ℕ → ℕ) (new_id : ℕ → ℕ) (price : Text → Option ℕ) (fault : ℕ → RoundFault) where
  complete_cycle-IsNumbered :
      (f : RoundFault) (c : TradingCycle) (live : Bool) (db : Database)
      → IsNumbered db.trading_cycles
      → IsNumbered (complete_cycle clock new_id price f c live db).1.trading_cycles
  unfolding complete_cycle
  complete_cycle-IsNumbered f c live db h =
      let done = completed-IsNumbered c.id (price c.asset_type) db.trading_cycles h in
      elim (Bool-cases (fails_update f)) [
        | inl bad ↦ rw bad (mark_failed-IsNumbered f c db h)
        | inr good ↦ elim (Bool-cases live) [
          | inr idle ↦ rw (good, idle) done
          | inl active ↦ elim (Bool-cases (fails_creation f)) [
            | inl late ↦
                rw (good, active, late) (mark_failed-IsNumbered f c (complete price c db) done)
            | inr none_ ↦
                rw (good, active, none_)
                  (create_next_cycle-IsNumbered (clock c.id) (new_id c.id) price
                    c.trading_session_id (complete price c db) done)
          ]
        ]
      ]

  complete_each-IsNumbered :
      (sessions : List TradingSession) (cs : List TradingCycle) (db : Database)
      → IsNumbered db.trading_cycles
      → IsNumbered (complete_each clock new_id price fault sessions cs db).trading_cycles
  unfolding complete_each
  complete_each-IsNumbered sessions [] db h = h
  complete_each-IsNumbered sessions (c ∷ cs) db h =
      let live = was_live c.trading_session_id sessions in
      let round = complete_cycle clock new_id price (fault c.id) c live db in
      let after = complete_cycle-IsNumbered (fault c.id) c live db h in
      elim (Bool-cases round.0) [
        | inl on ↦ rw on (complete_each-IsNumbered sessions cs round.1 after)
        | inr off ↦ rw off after
      ]

  -- The scheduled completion never gives two cycles of one session the same number: where the
  -- numbers are different before it, they are different after it, however many cycles were due and
  -- whichever writes of the database fail.
  pub handle_cycle_completion-IsNumbered :
      (now : ℕ) (db : Database)
      → IsNumbered db.trading_cycles
      → IsNumbered (handle_cycle_completion clock new_id price fault now db).trading_cycles
  unfolding handle_cycle_completion
  handle_cycle_completion-IsNumbered now db h =
      complete_each-IsNumbered db.trading_sessions (filter (is_due now) db.trading_cycles) db h
