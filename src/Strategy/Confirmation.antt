-- ===== src/Strategy/Confirmation.antt =====
-- src/strategy/momentum_validator.py, displacement_validator.py, mtf_alignment.py and
-- confirmation_core.py: `process_candidate_setup`. A bias text is one of two constructors after
-- `upper()`, or any other; the matrix is the list of its values.
pub mod Approval
use apex_xauusd_engine.Prelude.{
  ℕ, suc, Bool, true, false, not, ◌&&◌, List, [], ◌∷◌, ◌++◌, if◌then◌else◌, is_empty, length,
}
use apex_xauusd_engine.Prelude.Rat.{
  ℚ, ltb_ℚ, leb_ℚ, zero_ℚ, lit, of_ℕ, max_ℚ, min_ℚ, abs_ℚ, ◌+ℚ◌, ◌-ℚ◌, ◌*ℚ◌, ◌/ℚ◌,
}
use apex_xauusd_engine.Domain.{
  EngineStateContainer, RegimeName, post_news_chaos, member, text, OrderDirection, buy, sell,
  CandleNode, ConfirmationTier, invalid, low_conviction, medium_conviction, high_conviction,
  AlignmentStatus, conflicted, partially_aligned, fully_aligned, ConfirmationMetrics, Component,
  momentum_conviction, displacement_validated, mtf_trend_alignment, Invalidation,
  setup_outside_killzone_boundaries, toxic_post_news_regime_active,
  momentum_acceleration_insufficient, displacement_wick_exhaustion_breach,
  mtf_structural_bias_conflict, confirmation_score_below_minimum_threshold, ConfirmationSnapshot,
}

abbrev pub body_of : CandleNode → ℚ
body_of c = abs_ℚ (c.close_p -ℚ c.open_p)

abbrev pub range_of : CandleNode → ℚ
range_of c = max_ℚ (c.high_p -ℚ c.low_p) (lit 1 9)

unfoldable pub momentum_score : CandleNode → ℚ → ℚ
momentum_score c tick_velocity =
    min_ℚ (lit 100 0)
      (body_of c /ℚ range_of c *ℚ lit 70 0 +ℚ min_ℚ (tick_velocity *ℚ lit 10 0) (lit 30 0))

abbrev pub momentum_tier : ℚ → ConfirmationTier
momentum_tier score =
    if leb_ℚ (lit 85 0) score
    then high_conviction
    else if ltb_ℚ score (lit 50 0)
    then invalid
    else medium_conviction

-- The recent candles are not read.
unfoldable pub validate_momentum_pulse : CandleNode → ℚ → ConfirmationTier × ℚ
validate_momentum_pulse c tick_velocity =
    (momentum_tier (momentum_score c tick_velocity), momentum_score c tick_velocity)

unfoldable pub displacement_score : CandleNode → ℚ
displacement_score c = min_ℚ (lit 100 0) (body_of c /ℚ range_of c *ℚ lit 100 0)

abbrev pub displacement_tier : ℚ → ConfirmationTier
displacement_tier score =
    if ltb_ℚ score (lit 45 0)
    then invalid
    else if leb_ℚ (lit 80 0) score
    then high_conviction
    else medium_conviction

unfoldable pub verify_displacement_footprint : CandleNode → ConfirmationTier × ℚ
verify_displacement_footprint c = (displacement_tier (displacement_score c), displacement_score c)

pub data Bias : Type 0 where
  bullish bearish neither : Bias

abbrev pub agrees : OrderDirection → Bias → Bool
agrees buy bullish = true
agrees sell bearish = true
agrees _ _ = false

unfoldable pub count_aligned : OrderDirection → List Bias → ℕ
count_aligned direction [] = 0
count_aligned direction (bias ∷ rest) =
    let others = count_aligned direction rest in
    if agrees direction bias then suc others else others

abbrev pub aligned_ratio : OrderDirection → List Bias → ℚ
aligned_ratio direction biases = of_ℕ (count_aligned direction biases) /ℚ of_ℕ (length biases)

abbrev pub status_of_ratio : ℚ → AlignmentStatus
status_of_ratio ratio =
    if leb_ℚ (lit 75 2) ratio
    then fully_aligned
    else if leb_ℚ (lit 5 1) ratio
    then partially_aligned
    else conflicted

unfoldable pub evaluate_alignment_matrix : OrderDirection → List Bias → AlignmentStatus × ℚ
evaluate_alignment_matrix direction [] = (conflicted, zero_ℚ)
evaluate_alignment_matrix direction (bias ∷ rest) =
    let ratio = aligned_ratio direction (bias ∷ rest) in (status_of_ratio ratio, ratio *ℚ lit 100 0)

abbrev pub is_valid_tier : ConfirmationTier → Bool
is_valid_tier invalid = false
is_valid_tier _ = true

abbrev pub is_aligned : AlignmentStatus → Bool
is_aligned fully_aligned = true
is_aligned partially_aligned = true
is_aligned conflicted = false

abbrev pub is_chaos : RegimeName → Bool
is_chaos post_news_chaos = true
is_chaos (member r) = false
is_chaos (text t) = false

-- What the first four steps find.
pub record Checks : Type 0 where
  pub killzone : Bool
  pub chaos : Bool
  pub momentum : ConfirmationTier × ℚ
  pub displacement : ConfirmationTier × ℚ
  pub alignment : AlignmentStatus × ℚ

unfoldable pub weighted_score : Checks → ℚ
weighted_score c =
    c.momentum.1 *ℚ lit 35 2 +ℚ c.displacement.1 *ℚ lit 35 2 +ℚ c.alignment.1 *ℚ lit 30 2

abbrev pub reason_if : Bool → Invalidation → List Invalidation
reason_if test reason = if test then reason ∷ [] else []

unfoldable pub invalidation_reasons : Checks → List Invalidation
invalidation_reasons c =
    reason_if (not c.killzone) setup_outside_killzone_boundaries
    ++ reason_if c.chaos toxic_post_news_regime_active
    ++ reason_if (not (is_valid_tier c.momentum.0)) momentum_acceleration_insufficient
    ++ reason_if (not (is_valid_tier c.displacement.0)) displacement_wick_exhaustion_breach
    ++ reason_if (not (is_aligned c.alignment.0)) mtf_structural_bias_conflict
    ++ reason_if (ltb_ℚ (weighted_score c) (lit 75 0)) confirmation_score_below_minimum_threshold

abbrev pub component_if : Bool → Component → List Component
component_if test component = if test then component ∷ [] else []

unfoldable pub validated_components : Checks → List Component
validated_components c =
    component_if (is_valid_tier c.momentum.0) momentum_conviction
    ++ component_if (is_valid_tier c.displacement.0) displacement_validated
    ++ component_if (is_aligned c.alignment.0) mtf_trend_alignment

unfoldable pub is_validated : Checks → Bool
unfolding invalidation_reasons
is_validated c = is_empty (invalidation_reasons c) && leb_ℚ (lit 75 0) (weighted_score c)

-- The score after the limit for filtered setups.
unfoldable pub final_score : Checks → ℚ
final_score c =
    if not (is_validated c) && leb_ℚ (lit 75 0) (weighted_score c)
    then lit 74 0
    else weighted_score c

unfoldable pub overall_tier : Checks → ConfirmationTier
overall_tier c =
    if is_validated c
    then if leb_ℚ (lit 88 0) (final_score c)
      then high_conviction
      else if leb_ℚ (lit 75 0) (final_score c)
      then medium_conviction
      else invalid
    else invalid

abbrev pub checks_of : EngineStateContainer → OrderDirection → CandleNode → List Bias → ℚ → Checks
checks_of s direction trigger_candle biases tick_velocity = record {
  killzone = s.session.killzone_active;
  chaos = is_chaos s.regime.current_regime;
  momentum = validate_momentum_pulse trigger_candle tick_velocity;
  displacement = verify_displacement_footprint trigger_candle;
  alignment = evaluate_alignment_matrix direction biases;
}

unfoldable pub process_candidate_setup :
    ℕ
    → EngineStateContainer
    → OrderDirection
    → CandleNode
    → List Bias
    → ℚ
    → Bool × ConfirmationSnapshot
process_candidate_setup now s direction trigger_candle biases tick_velocity =
    let c = checks_of s direction trigger_candle biases tick_velocity in
    (
      is_validated c,
      record {
        timestamp = now;
        overall_tier = overall_tier c;
        confidence_score = final_score c;
        is_validated = is_validated c;
        alignment = c.alignment.0;
        metrics = record {
          momentum_velocity_score = c.momentum.1;
          displacement_ratio = c.displacement.1;
          wick_rejection_pct = lit 100 0 -ℚ c.displacement.1;
          mtf_alignment_score = c.alignment.1;
          volatility_expansion_factor = s.regime.volatility_ratio;
          session_efficiency_index = if c.killzone then lit 100 0 else zero_ℚ;
        };
        validated_components = validated_components c;
        invalidation_reasons = invalidation_reasons c;
      },
    )
