-- ===== src/Strategy/Scoring.antt =====
-- src/strategy/scoring_components.py, penalty_engine.py and scoring_matrix.py:
-- `TradeScoringOrchestrator`.
pub mod Ranking
use apex_xauusd_engine.Prelude.{
  ℕ, Bool, true, false, ◌&&◌, List, [], ◌∷◌, ◌++◌, if◌then◌else◌, is_empty, length, ltb, drop,
}
use apex_xauusd_engine.Prelude.Dict.{Dict, insert}
use apex_xauusd_engine.Prelude.Int.{pos, ltb_ℤ}
use apex_xauusd_engine.Prelude.Rat.{
  ℚ, ltb_ℚ, leb_ℚ, zero_ℚ, lit, max_ℚ, min_ℚ, abs_ℚ, ◌+ℚ◌, ◌-ℚ◌, ◌*ℚ◌, ◌/ℚ◌,
}
use apex_xauusd_engine.Domain.{
  EngineStateContainer, SetupOpportunityNode, ConfirmationSnapshot, SetupType,
  liquidity_sweep_reversal, order_block_continuation, fvg_continuation, SetupQualityTier,
  elite_institutional, invalid_setup, standard, high_probability, RankedTradeTier,
  elite_institutional_trade, high_probability_trade, moderate_trade, reject_trade, ScoringBreakdown,
  ScoreRejection, score_below_minimum_execution_threshold, critical_spread_expansion_violation,
  asymmetric_risk_reward_insufficient, PrioritizedExecutionNode,
}

unfoldable pub evaluate_structural_quality : SetupOpportunityNode → ℚ
evaluate_structural_quality setup = min_ℚ (max_ℚ setup.confidence_score zero_ℚ) (lit 100 0)

-- `"LIQUIDITY" in setup.setup_type.value`
abbrev pub names_liquidity : SetupType → Bool
names_liquidity liquidity_sweep_reversal = true
names_liquidity order_block_continuation = false
names_liquidity fvg_continuation = false

unfoldable pub evaluate_liquidity_quality : SetupOpportunityNode → ℚ
evaluate_liquidity_quality setup = if names_liquidity setup.setup_type then lit 85 0 else lit 70 0

unfoldable pub evaluate_momentum_quality : ConfirmationSnapshot → ℚ
evaluate_momentum_quality confirmation =
    min_ℚ (max_ℚ confirmation.confidence_score zero_ℚ) (lit 100 0)

unfoldable pub evaluate_volatility_quality : EngineStateContainer → ℚ
evaluate_volatility_quality s =
    max_ℚ zero_ℚ
      (min_ℚ (lit 100 0) (lit 100 0 -ℚ abs_ℚ (s.regime.volatility_ratio -ℚ lit 12 1) *ℚ lit 30 0))

unfoldable pub evaluate_rr_quality : SetupOpportunityNode → ℚ
evaluate_rr_quality setup =
    max_ℚ zero_ℚ (min_ℚ (lit 100 0) (setup.estimated_rr /ℚ lit 3 0 *ℚ lit 100 0))

unfoldable pub evaluate_execution_efficiency : EngineStateContainer → ℚ
evaluate_execution_efficiency s =
    max_ℚ zero_ℚ (lit 100 0 -ℚ s.market.current_spread *ℚ lit 10 0 *ℚ lit 20 0)

unfoldable pub calculate_cumulative_penalties : EngineStateContainer → ℚ
calculate_cumulative_penalties s =
    let penalty = if ltb_ℤ (pos 0) s.positions.active_position_count then lit 10 0 else zero_ℚ in
    if s.positions.is_trading_halted then penalty +ℚ lit 100 0 else penalty

unfoldable pub weighted_total : ℚ → ℚ → ℚ → ℚ → ℚ → ℚ → ℚ
weighted_total structure liquidity momentum volatility rr execution =
    structure *ℚ lit 20 2
    +ℚ liquidity *ℚ lit 20 2
    +ℚ momentum *ℚ lit 15 2
    +ℚ volatility *ℚ lit 15 2
    +ℚ rr *ℚ lit 15 2
    +ℚ execution *ℚ lit 15 2

unfoldable pub normalized_score : ℚ → ℚ → ℚ
normalized_score raw_total applied_penalties =
    max_ℚ (min_ℚ (raw_total -ℚ applied_penalties) (lit 100 0)) zero_ℚ

unfoldable pub score_breakdown :
    EngineStateContainer → SetupOpportunityNode → ConfirmationSnapshot → ScoringBreakdown
score_breakdown s setup confirmation =
    let structure = evaluate_structural_quality setup in
    let liquidity = evaluate_liquidity_quality setup in
    let momentum = evaluate_momentum_quality confirmation in
    let volatility = evaluate_volatility_quality s in
    let rr = evaluate_rr_quality setup in
    let execution = evaluate_execution_efficiency s in
    let raw = weighted_total structure liquidity momentum volatility rr execution in
    let penalties = calculate_cumulative_penalties s in
    record {
      structure_score = structure;
      liquidity_score = liquidity;
      momentum_score = momentum;
      volatility_score = volatility;
      rr_score = rr;
      execution_score = execution;
      raw_total = raw;
      applied_penalties = penalties;
      normalized_final_score = normalized_score raw penalties;
    }

-- `if test: reasons.append(reason)`
abbrev pub one_if : Bool → ScoreRejection → List ScoreRejection
one_if test reason = if test then reason ∷ [] else []

unfoldable pub score_rejections : ScoringBreakdown → List ScoreRejection
score_rejections b =
    one_if (ltb_ℚ b.normalized_final_score (lit 75 0)) score_below_minimum_execution_threshold
    ++ one_if (leb_ℚ b.execution_score zero_ℚ) critical_spread_expansion_violation
    ++ one_if (leb_ℚ b.rr_score zero_ℚ) asymmetric_risk_reward_insufficient

abbrev pub is_elite : SetupQualityTier → Bool
is_elite elite_institutional = true
is_elite high_probability = false
is_elite standard = false
is_elite invalid_setup = false

-- The tier, the priority index and the multiplier.
unfoldable pub rank_for : Bool → SetupQualityTier → ℚ → RankedTradeTier × ℕ × ℚ
rank_for executable quality score =
    if executable
    then if leb_ℚ (lit 90 0) score && is_elite quality
      then (elite_institutional_trade, 0, lit 1 0)
      else if leb_ℚ (lit 80 0) score
      then (high_probability_trade, 1, lit 75 2)
      else (moderate_trade, 2, lit 50 2)
    else (reject_trade, 99, zero_ℚ)

unfoldable pub execution_node :
    ℕ
    → EngineStateContainer
    → SetupOpportunityNode
    → ConfirmationSnapshot
    → PrioritizedExecutionNode
unfolding rank_for
execution_node now s setup confirmation =
    let b = score_breakdown s setup confirmation in
    let reasons = score_rejections b in
    let ranked = rank_for (is_empty reasons) setup.quality_tier b.normalized_final_score in
    record {
      setup_id = setup.id;
      allocation_priority = ranked.1;
      ranked_tier = ranked.0;
      score_breakdown = b;
      qualification_timestamp = now;
      execution_multiplier = ranked.2;
      is_live_executable = is_empty reasons;
      rejection_payload = reasons;
    }

-- The oldest key of the registry is its first.
unfoldable pub clean_registry_cache_bounds :
    Dict PrioritizedExecutionNode → Dict PrioritizedExecutionNode
clean_registry_cache_bounds registry =
    if ltb 1000 (length registry) then drop 1 registry else registry

-- `process_and_rank_setup` on the registry
unfoldable pub process_and_rank_setup :
    ℕ
    → EngineStateContainer
    → SetupOpportunityNode
    → ConfirmationSnapshot
    → Dict PrioritizedExecutionNode
    → PrioritizedExecutionNode × Dict PrioritizedExecutionNode
unfolding clean_registry_cache_bounds execution_node
process_and_rank_setup now s setup confirmation registry =
    let node = execution_node now s setup confirmation in
    (node, clean_registry_cache_bounds (insert setup.id node registry))
