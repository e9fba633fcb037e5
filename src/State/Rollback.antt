-- ===== src/State/Rollback.antt =====
-- What every operation of the state manager keeps, commits, and rollback.
use apex_xauusd_engine.Prelude.{
  ℕ, ◌-◌, ◌≤◌, ◌≡◌, refl, some, List, [], ◌∷◌, ◌++◌, arith, length, length-drop, All, All-append,
  All-drop, inl, inr, Option-cases,
}
use apex_xauusd_engine.Prelude.Rat.{ltb_ℚ}
use apex_xauusd_engine.Domain.{
  MarketDomainState, SessionDomainState, PositionDomainState, SystemHealthDomainState,
  CorrelationId, EngineStateContainer,
}
use apex_xauusd_engine.Errors.{Result, ok, err, ◌>>=◌, ◌>>◌}
use apex_xauusd_engine.State.Mutator.{
  IsSound, verify_invariants, mutate_market-IsSound, mutate_session-IsSound,
  mutate_positions-IsSound, mutate_health-IsSound, mutate_market, mutate_session, mutate_positions,
  mutate_health,
}
use apex_xauusd_engine.State.Snapshots.{StatePayload, deserialize_from_dict}
use apex_xauusd_engine.State.Manager.{
  StateManager, push_journal, generate_cold_boot_state, new_manager, install, commit_with,
  activate_with, load_with, bootstrap, terminate, commit_market_update, commit_session_update,
  commit_position_update, commit_health_update, find_last, revert_to_sequence,
  load_historical_snapshot,
}

-- Every state that the manager holds is sound, and the journal is within its capacity.
pub record IsValid (m : StateManager) : Type 0 where
  pub active_sound : IsSound m.active_state
  pub journal_sound : All IsSound m.journal
  pub journal_bounded : length m.journal ≤ m.capacity

length-push_journal :
    (c : ℕ) (j : List EngineStateContainer) (s : EngineStateContainer)
    → length (push_journal c j s) ≤ c
unfolding push_journal
length-push_journal c j s = omega (arith, length-drop (length (j ++ s ∷ []) - c) (j ++ s ∷ []))

All-push_journal :
    (c : ℕ) (j : List EngineStateContainer) (s : EngineStateContainer)
    → All IsSound j
    → IsSound s
    → All IsSound (push_journal c j s)
unfolding push_journal
All-push_journal c j s h k = All-drop IsSound _ _ (All-append IsSound j (s ∷ []) h (k, tt))

install-IsValid :
    (m : StateManager) (s : EngineStateContainer) → IsValid m → IsSound s → IsValid (install m s)
install-IsValid m s v k = record {
  active_sound = k;
  journal_sound = All-push_journal m.capacity m.journal s v.journal_sound k;
  journal_bounded = length-push_journal m.capacity m.journal s;
}

cold_boot-IsSound : (now : ℕ) → IsSound (generate_cold_boot_state now)
unfolding generate_cold_boot_state ltb_ℚ
cold_boot-IsSound now = record { ask_ge_bid = refl; spread_nonneg = refl; count_nonneg = refl }

new_manager-IsValid : (c now : ℕ) → IsValid (new_manager c now)
unfolding new_manager
new_manager-IsValid c now = record {
  active_sound = cold_boot-IsSound now;
  journal_sound = tt;
  journal_bounded = omega arith;
}

find_last-IsSound :
    (n : ℕ) (j : List EngineStateContainer) {s : EngineStateContainer}
    → All IsSound j
    → find_last n j ≡ some s
    → IsSound s
unfolding find_last
find_last-IsSound n [] h e = cc
find_last-IsSound n (x ∷ j) h e = elim (Option-cases (find_last n j)) [
  | inl f ↦ ground (arith, h.0)
  | inr (t, f) ↦ find_last-IsSound n j h.1 (ground arith)
]

commit_with-IsValid :
    (m : StateManager) (r : Result EngineStateContainer)
    → IsValid m
    → ((t : EngineStateContainer) → r ≡ ok t → IsSound t)
    → IsValid (commit_with m r).1
commit_with-IsValid m (ok s) v sound = install-IsValid m s v (sound s refl)
commit_with-IsValid m (err e) v sound = v

health-IsValid :
    (m : StateManager) (r : Result EngineStateContainer)
    → IsValid m
    → ((t : EngineStateContainer) → r ≡ ok t → IsSound t)
    → IsValid (activate_with m r).1
health-IsValid m (ok s) v sound = record {
  active_sound = sound s refl;
  journal_sound = v.journal_sound;
  journal_bounded = v.journal_bounded;
}
health-IsValid m (err e) v sound = v

-- A snapshot is installed only after the validator has accepted it.
checked-IsSound :
    (s : EngineStateContainer) {t : EngineStateContainer}
    → (verify_invariants s >> ok s) ≡ ok t
    → IsSound t
unfolding verify_invariants
checked-IsSound s h = ground arith

load-IsSound :
    (r : Result EngineStateContainer) (t : EngineStateContainer)
    → (r >>= λ s. verify_invariants s >> ok s) ≡ ok t
    → IsSound t
load-IsSound (ok s) t h = checked-IsSound s h
load-IsSound (err e) t h = cc

revert-IsValid : (n : ℕ) (m : StateManager) → IsValid m → IsValid (revert_to_sequence n m).1
unfolding revert_to_sequence
revert-IsValid n m v = elim (Option-cases (find_last n m.journal)) [
  | inl none_found ↦ rw (none_found, revert_to_sequence) v
  | inr (s, found) ↦
      rw (found, revert_to_sequence)
        record {
          active_sound = find_last-IsSound n m.journal v.journal_sound found;
          journal_sound = v.journal_sound;
          journal_bounded = v.journal_bounded;
        }
]

-- A call of one of the manager's methods, with the time at which it runs.
pub data Operation : Type 0 where
  boot : ℕ → Operation
  shut_down : Operation
  market : ℕ → CorrelationId → (MarketDomainState → MarketDomainState) → Operation
  session : ℕ → CorrelationId → (SessionDomainState → SessionDomainState) → Operation
  position : ℕ → CorrelationId → (PositionDomainState → PositionDomainState) → Operation
  health : ℕ → CorrelationId → (SystemHealthDomainState → SystemHealthDomainState) → Operation
  revert : ℕ → Operation
  load : StatePayload → Operation

pub apply : Operation → StateManager → StateManager
apply (boot now) m = bootstrap now m
apply shut_down m = terminate m
apply (market now c f) m = (commit_market_update now c m f).1
apply (session now c f) m = (commit_session_update now c m f).1
apply (position now c f) m = (commit_position_update now c m f).1
apply (health now c f) m = (commit_health_update now c m f).1
apply (revert n) m = (revert_to_sequence n m).1
apply (load p) m = (load_historical_snapshot p m).1

load_with-IsValid :
    (m : StateManager) (r : Result EngineStateContainer)
    → IsValid m
    → ((t : EngineStateContainer) → r ≡ ok t → IsSound t)
    → IsValid (load_with m r).1
load_with-IsValid m (ok s) v sound = install-IsValid m s v (sound s refl)
load_with-IsValid m (err e) v sound = v

apply-IsValid : (o : Operation) (m : StateManager) → IsValid m → IsValid (apply o m)
unfolding apply bootstrap terminate commit_market_update commit_session_update
    commit_position_update commit_health_update load_historical_snapshot
apply-IsValid (boot now) m v = install-IsValid m _ v (cold_boot-IsSound now)
apply-IsValid shut_down m v = record {
  active_sound = v.active_sound;
  journal_sound = tt;
  journal_bounded = omega arith;
}
apply-IsValid (market now c f) m v =
    commit_with-IsValid m (mutate_market now m.active_state f c) v
      (mutate_market-IsSound now m.active_state f c)
apply-IsValid (session now c f) m v =
    commit_with-IsValid m (mutate_session now m.active_state f c) v
      (mutate_session-IsSound now m.active_state f c)
apply-IsValid (position now c f) m v =
    commit_with-IsValid m (mutate_positions now m.active_state f c) v
      (mutate_positions-IsSound now m.active_state f c)
apply-IsValid (health now c f) m v =
    health-IsValid m (mutate_health now m.active_state f c) v
      (mutate_health-IsSound now m.active_state f c)
apply-IsValid (revert n) m v = revert-IsValid n m v
apply-IsValid (load p) m v =
    load_with-IsValid m (deserialize_from_dict p >>= λ s. verify_invariants s >> ok s) v
      (load-IsSound (deserialize_from_dict p))

pub run : List Operation → StateManager → StateManager
run [] m = m
run (o ∷ os) m = run os (apply o m)

run_of-IsValid : (os : List Operation) (m : StateManager) → IsValid m → IsValid (run os m)
unfolding run
run_of-IsValid [] m v = v
run_of-IsValid (o ∷ os) m v = run_of-IsValid os (apply o m) (apply-IsValid o m v)

-- From start-up on, whatever methods are called and in whatever order, with failing commits,
-- rollbacks and loaded snapshots among them: the active state and every state of the journal
-- satisfy the validator's relations, and the journal stays within its capacity.
pub run-IsValid :
    (capacity now : ℕ) (os : List Operation) → IsValid (run os (new_manager capacity now))
run-IsValid capacity now os = run_of-IsValid os _ (new_manager-IsValid capacity now)
