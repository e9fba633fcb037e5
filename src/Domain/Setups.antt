-- ===== src/Domain/Setups.antt =====
-- src/core/domain/setup_models.py, confirmation_models.py and scoring_models.py.
use apex_xauusd_engine.Prelude.{ℕ, Bool, List}
use apex_xauusd_engine.Prelude.Rat.{ℚ}
use apex_xauusd_engine.Domain.Constants.{OrderDirection}
use apex_xauusd_engine.Domain.Market.{Timeframe}

pub data SetupType : Type 0 where
  liquidity_sweep_reversal order_block_continuation fvg_continuation : SetupType

pub data SetupQualityTier : Type 0 where
  invalid_setup standard high_probability elite_institutional : SetupQualityTier

pub record SetupOpportunityNode : Type 0 where
  pub id : ℕ
  pub setup_type : SetupType
  pub direction : OrderDirection
  pub entry_price : ℚ
  pub stop_loss : ℚ
  pub take_profit : ℚ
  pub estimated_rr : ℚ
  pub quality_tier : SetupQualityTier
  pub confidence_score : ℚ
  pub creation_time : ℕ
  pub expiration_time : ℕ
  pub correlation_id : ℕ
  pub timeframe : Timeframe

pub data ConfirmationTier : Type 0 where
  invalid low_conviction medium_conviction high_conviction : ConfirmationTier

pub data AlignmentStatus : Type 0 where
  conflicted partially_aligned fully_aligned : AlignmentStatus

pub record ConfirmationMetrics : Type 0 where
  pub momentum_velocity_score : ℚ
  pub displacement_ratio : ℚ
  pub wick_rejection_pct : ℚ
  pub mtf_alignment_score : ℚ
  pub volatility_expansion_factor : ℚ
  pub session_efficiency_index : ℚ

-- The texts of `validated_components`.
pub data Component : Type 0 where
  momentum_conviction displacement_validated mtf_trend_alignment : Component

-- The texts of `invalidation_reasons`.
pub data Invalidation : Type 0 where
  setup_outside_killzone_boundaries toxic_post_news_regime_active : Invalidation
  momentum_acceleration_insufficient displacement_wick_exhaustion_breach : Invalidation
  mtf_structural_bias_conflict confirmation_score_below_minimum_threshold : Invalidation

pub record ConfirmationSnapshot : Type 0 where
  pub timestamp : ℕ
  pub overall_tier : ConfirmationTier
  pub confidence_score : ℚ
  pub is_validated : Bool
  pub alignment : AlignmentStatus
  pub metrics : ConfirmationMetrics
  pub validated_components : List Component
  pub invalidation_reasons : List Invalidation

pub data RankedTradeTier : Type 0 where
  elite_institutional_trade high_probability_trade moderate_trade reject_trade : RankedTradeTier

pub record ScoringBreakdown : Type 0 where
  pub structure_score : ℚ
  pub liquidity_score : ℚ
  pub momentum_score : ℚ
  pub volatility_score : ℚ
  pub rr_score : ℚ
  pub execution_score : ℚ
  pub raw_total : ℚ
  pub applied_penalties : ℚ
  pub normalized_final_score : ℚ

-- The texts of `rejection_payload`.
pub data ScoreRejection : Type 0 where
  score_below_minimum_execution_threshold critical_spread_expansion_violation : ScoreRejection
  asymmetric_risk_reward_insufficient : ScoreRejection

pub record PrioritizedExecutionNode : Type 0 where
  pub setup_id : ℕ
  pub allocation_priority : ℕ
  pub ranked_tier : RankedTradeTier
  pub score_breakdown : ScoringBreakdown
  pub qualification_timestamp : ℕ
  pub execution_multiplier : ℚ
  pub is_live_executable : Bool
  pub rejection_payload : List ScoreRejection
