-- ===== src/State/Snapshots.antt =====
-- src/core/state/snapshots.py. A payload is the dictionary of a state, with the same entries; the
-- session's entries are optional where the reader calls `get`.
use apex_xauusd_engine.Prelude.{ℕ, ◌≡◌, arith, Bool, false, Option, none, some}
use apex_xauusd_engine.Domain.{
  MarketRegime, SessionState, RegimeName, member, post_news_chaos, text, MarketDomainState,
  RegimeDomainState, PositionDomainState, SystemHealthDomainState, CorrelationId,
  EngineStateContainer,
}
use apex_xauusd_engine.Errors.{Result, ok, err, ◌>>=◌, value_error}

pub record SessionPayload : Type 0 where
  pub current_phase : SessionState
  pub last_phase_transition : ℕ
  pub killzone_active : Option Bool
  pub killzone_name : Option (Option ℕ)

pub record StatePayload : Type 0 where
  pub sequence_id : ℕ
  pub timestamp : ℕ
  pub correlation_id : CorrelationId
  pub market : MarketDomainState
  pub session : SessionPayload
  pub regime : RegimeDomainState
  pub positions : PositionDomainState
  pub health : SystemHealthDomainState

-- `asdict`
unfoldable pub serialize_to_dict : EngineStateContainer → StatePayload
serialize_to_dict s = record {
  sequence_id = s.sequence_id;
  timestamp = s.timestamp;
  correlation_id = s.correlation_id;
  market = s.market;
  session = record {
    current_phase = s.session.current_phase;
    last_phase_transition = s.session.last_phase_transition;
    killzone_active = some s.session.killzone_active;
    killzone_name = some s.session.killzone_name;
  };
  regime = s.regime;
  positions = s.positions;
  health = s.health;
}

-- `bool(session.get("killzone_active", False))`
abbrev get_active : Option Bool → Bool
get_active none = false
get_active (some b) = b

-- `MarketRegime(value)`: a text that is no member raises `ValueError`.
unfoldable pub to_member : RegimeName → Result RegimeName
to_member (member r) = ok (member r)
to_member post_news_chaos = err value_error
to_member (text t) = err value_error

unfoldable pub deserialize_from_dict : StatePayload → Result EngineStateContainer
unfolding to_member
deserialize_from_dict p = do
  current_regime ← to_member p.regime.current_regime
  ok (record {
    sequence_id = p.sequence_id;
    timestamp = p.timestamp;
    correlation_id = p.correlation_id;
    market = p.market;
    session = record {
      current_phase = p.session.current_phase;
      last_phase_transition = p.session.last_phase_transition;
      killzone_active = get_active p.session.killzone_active;
      killzone_name = none;
    };
    regime = record {
      current_regime = current_regime;
      volatility_ratio = p.regime.volatility_ratio;
      volume_z_score = p.regime.volume_z_score;
      last_calculated_at = p.regime.last_calculated_at;
    };
    positions = p.positions;
    health = p.health;
  })

-- A state whose regime is a member of `MarketRegime` comes back from its dictionary with every
-- field unchanged except the killzone's name, which is lost.
pub deserialize-serialize :
    (s : EngineStateContainer) (r : MarketRegime)
    → s.regime.current_regime ≡ member r
    → deserialize_from_dict (serialize_to_dict s)
      ≡ ok (record s { session = record (s.session) { killzone_name = none } })
unfolding deserialize_from_dict serialize_to_dict
deserialize-serialize s r h = ground arith
