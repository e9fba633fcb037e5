-- ===== src/State/Manager.antt =====
-- src/strategy/state_manager.py: `CentralRuntimeStateManager`. Its coroutines hold a lock for their
-- whole body and do not wait inside it, so each is one step.
use apex_xauusd_engine.Prelude.{
  ℕ, ◌-◌, Bool, true, false, Option, none, some, List, [], ◌∷◌, ◌++◌, length, drop, ◌==◌,
  if◌then◌else◌,
}
use apex_xauusd_engine.Prelude.Int.{pos}
use apex_xauusd_engine.Prelude.Rat.{zero_ℚ, lit}
use apex_xauusd_engine.Domain.{
  MarketDomainState, SessionDomainState, PositionDomainState, SystemHealthDomainState,
  CorrelationId, cold_boot, EngineStateContainer, system_shutdown, unknown, member,
}
use apex_xauusd_engine.Errors.{Result, ok, err, ◌>>=◌, ◌>>◌}
use apex_xauusd_engine.State.Mutator.{
  verify_invariants, mutate_market, mutate_session, mutate_positions, mutate_health,
}
use apex_xauusd_engine.State.Snapshots.{StatePayload, deserialize_from_dict}

pub record StateManager : Type 0 where
  pub active_state : EngineStateContainer
  pub journal : List EngineStateContainer
  -- `maxlen` of the journal
  pub capacity : ℕ

-- `deque.append` with a `maxlen`: the oldest entries fall out.
unfoldable pub push_journal :
    ℕ → List EngineStateContainer → EngineStateContainer → List EngineStateContainer
push_journal capacity journal s =
    let longer = journal ++ s ∷ [] in drop (length longer - capacity) longer

unfoldable pub generate_cold_boot_state : ℕ → EngineStateContainer
generate_cold_boot_state init_time = record {
  sequence_id = 0;
  timestamp = init_time;
  correlation_id = cold_boot;
  market = record {
    last_tick_time = init_time;
    current_ask = zero_ℚ;
    current_bid = zero_ℚ;
    current_mid = zero_ℚ;
    current_spread = zero_ℚ;
    accumulated_tick_count = 0;
    is_synchronized = false;
  };
  session = record {
    current_phase = system_shutdown;
    last_phase_transition = init_time;
    killzone_active = false;
    killzone_name = none;
  };
  regime = record {
    current_regime = member unknown;
    volatility_ratio = lit 1 0;
    volume_z_score = zero_ℚ;
    last_calculated_at = init_time;
  };
  positions = record {
    net_exposure_lots = zero_ℚ;
    floating_pnl_pips = zero_ℚ;
    active_position_count = pos 0;
    daily_realized_loss_pct = zero_ℚ;
    is_trading_halted = false;
  };
  health = record {
    uptime_seconds = zero_ℚ;
    event_bus_queue_backpressure = 0;
    broker_latency_ms = zero_ℚ;
    memory_usage_bytes = 0;
    last_heartbeat = init_time;
  };
}

-- `__init__`
unfoldable pub new_manager : ℕ → ℕ → StateManager
new_manager historical_journal_capacity now = record {
  active_state = generate_cold_boot_state now;
  journal = [];
  capacity = historical_journal_capacity;
}

-- `self._active_state = s; self._journal.append(s)`
abbrev pub install : StateManager → EngineStateContainer → StateManager
install m s = record m { active_state = s; journal = push_journal m.capacity m.journal s }

-- A commit: the mutated state is installed and returned; an exception leaves the manager as it was.
abbrev pub commit_with :
    StateManager → Result EngineStateContainer → Result EngineStateContainer × StateManager
commit_with m (ok s) = (ok s, install m s)
commit_with m (err e) = (err e, m)

-- The same without the journal.
abbrev pub activate_with :
    StateManager → Result EngineStateContainer → Result EngineStateContainer × StateManager
activate_with m (ok s) = (ok s, record m { active_state = s })
activate_with m (err e) = (err e, m)

abbrev pub load_with : StateManager → Result EngineStateContainer → Result (Unit {0}) × StateManager
load_with m (ok s) = (ok tt, install m s)
load_with m (err e) = (err e, m)

unfoldable pub bootstrap : ℕ → StateManager → StateManager
unfolding push_journal
bootstrap now m = install m (generate_cold_boot_state now)

unfoldable pub terminate : StateManager → StateManager
terminate m = record m { journal = [] }

module _ (now : ℕ) (correlation_id : CorrelationId) (m : StateManager) where
  unfoldable pub commit_market_update :
      (MarketDomainState → MarketDomainState) → Result EngineStateContainer × StateManager
  commit_market_update fields =
      commit_with m (mutate_market now m.active_state fields correlation_id)

  unfoldable pub commit_session_update :
      (SessionDomainState → SessionDomainState) → Result EngineStateContainer × StateManager
  commit_session_update fields =
      commit_with m (mutate_session now m.active_state fields correlation_id)

  unfoldable pub commit_position_update :
      (PositionDomainState → PositionDomainState) → Result EngineStateContainer × StateManager
  commit_position_update fields =
      commit_with m (mutate_positions now m.active_state fields correlation_id)

  -- This one does not write to the journal.
  unfoldable pub commit_health_update :
      (SystemHealthDomainState → SystemHealthDomainState)
      → Result EngineStateContainer × StateManager
  commit_health_update fields =
      activate_with m (mutate_health now m.active_state fields correlation_id)

-- The loop of `revert_to_sequence` over the reversed journal: the last entry with the number.
unfoldable pub find_last : ℕ → List EngineStateContainer → Option EngineStateContainer
find_last target [] = none
find_last target (s ∷ journal) = elim (find_last target journal) [
  | some t ↦ some t
  | none ↦ if s.sequence_id == target then some s else none
]

unfoldable pub revert_to_sequence : ℕ → StateManager → Bool × StateManager
revert_to_sequence target m = elim (find_last target m.journal) [
  | some s ↦ (true, record m { active_state = s })
  | none ↦ (false, m)
]

unfoldable pub load_historical_snapshot :
    StatePayload → StateManager → Result (Unit {0}) × StateManager
load_historical_snapshot p m =
    load_with m (deserialize_from_dict p >>= λ s. verify_invariants s >> ok s)
