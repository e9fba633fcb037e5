-- ===== src/Domain/Risk.antt =====
-- src/core/domain/risk_models.py.
use apex_xauusd_engine.Prelude.{ℕ, Bool, List}
use apex_xauusd_engine.Prelude.Rat.{ℚ}

pub data RiskSafetyTier : Type 0 where
  reject controlled_risk safe_institutional : RiskSafetyTier

pub data RiskHaltState : Type 0 where
  nominal daily_loss_breached consecutive_loss_breached trading_halted : RiskHaltState

pub record PositionSizingPayload : Type 0 where
  pub calculated_lots : ℚ
  pub risk_percentage_applied : ℚ
  pub currency_risk : ℚ

-- The messages that the gates of src/execution return.
pub data GateMessage : Type 0 where
  fine spread_above_routing_limit spread_above_execution_limit halted : GateMessage
  risk_reward_below_minimum : GateMessage

-- The texts of the firewall's `rejection_reasons`.
pub data RiskRejection : Type 0 where
  systemic_risk_halt_active : RiskHaltState → RiskRejection
  gate_message : GateMessage → RiskRejection
  position_sizing_calculation_failed position_sizing_generated_lot_zero_allocation : RiskRejection

pub record RiskEvaluationSnapshot : Type 0 where
  pub timestamp : ℕ
  pub is_approved : Bool
  pub safety_tier : RiskSafetyTier
  pub halt_state : RiskHaltState
  pub sizing : PositionSizingPayload
  pub applied_spread_pips : ℚ
  pub rejection_reasons : List RiskRejection

-- The texts of the guard's `rejection_reasons`.
pub data GuardRejection : Type 0 where
  broker_normalized_volume_is_zero broker_quote_is_stale : GuardRejection
  live_spread_exceeds_pre_submission_limit live_stop_currency_risk_is_invalid : GuardRejection
  live_stop_currency_risk_exceeds_approved_budget : GuardRejection
  live_entry_invalidates_stop_target_geometry : GuardRejection

-- A quote's age in seconds; `infinite` before the first change of a quote.
pub data QuoteAge : Type 0 where
  seconds : ℚ → QuoteAge
  infinite : QuoteAge

pub record PreSubmissionRiskAssessment : Type 0 where
  pub is_approved : Bool
  pub live_entry_price : ℚ
  pub normalized_lots : ℚ
  pub currency_risk : ℚ
  pub maximum_currency_risk : ℚ
  pub spread_price : ℚ
  pub quote_age_seconds : QuoteAge
  pub rejection_reasons : List GuardRejection
  pub requested_lots : ℚ
  pub adapted_to_fit_risk : Bool
  pub demo_minimum_lot_override : Bool
