-- ===== src/Domain/States.antt =====
-- src/core/domain/state_models.py.
use apex_xauusd_engine.Prelude.{ℕ, Bool, Option}
use apex_xauusd_engine.Prelude.Int.{ℤ}
use apex_xauusd_engine.Prelude.Rat.{ℚ}
use apex_xauusd_engine.Domain.Constants.{MarketRegime, SessionState}
use apex_xauusd_engine.Domain.Orders.{ExecutionId}

-- `MarketRegime | str`: a member, the text `POST_NEWS_CHAOS`, or another text.
pub data RegimeName : Type 0 where
  member : MarketRegime → RegimeName
  post_news_chaos : RegimeName
  text : ℕ → RegimeName

pub record MarketDomainState : Type 0 where
  pub last_tick_time : ℕ
  pub current_ask : ℚ
  pub current_bid : ℚ
  pub current_mid : ℚ
  pub current_spread : ℚ
  pub accumulated_tick_count : ℕ
  pub is_synchronized : Bool

pub record SessionDomainState : Type 0 where
  pub current_phase : SessionState
  pub last_phase_transition : ℕ
  pub killzone_active : Bool
  pub killzone_name : Option ℕ

pub record RegimeDomainState : Type 0 where
  pub current_regime : RegimeName
  pub volatility_ratio : ℚ
  pub volume_z_score : ℚ
  pub last_calculated_at : ℕ

pub record PositionDomainState : Type 0 where
  pub net_exposure_lots : ℚ
  pub floating_pnl_pips : ℚ
  pub active_position_count : ℤ
  pub daily_realized_loss_pct : ℚ
  pub is_trading_halted : Bool

pub record SystemHealthDomainState : Type 0 where
  pub uptime_seconds : ℚ
  pub event_bus_queue_backpressure : ℕ
  pub broker_latency_ms : ℚ
  pub memory_usage_bytes : ℕ
  pub last_heartbeat : ℕ

-- The texts of a correlation identifier that the engine writes, or any other.
pub data CorrelationId : Type 0 where
  cold_boot reconciliation_emergency_mutation : CorrelationId
  fill_sync : ExecutionId → CorrelationId
  setup_tick setup_session : ℕ → CorrelationId
  external : ℕ → CorrelationId

pub record EngineStateContainer : Type 0 where
  pub sequence_id : ℕ
  pub timestamp : ℕ
  pub correlation_id : CorrelationId
  pub market : MarketDomainState
  pub session : SessionDomainState
  pub regime : RegimeDomainState
  pub positions : PositionDomainState
  pub health : SystemHealthDomainState
