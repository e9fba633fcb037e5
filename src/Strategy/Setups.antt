-- ===== src/Strategy/Setups.antt =====
-- src/strategy/setup_quality.py, setup_lifecycle.py, reversal_detectors.py and
-- continuation_detectors.py.
pub mod Decay
pub mod Geometry
use apex_xauusd_engine.Prelude.{
  ℕ, ◌-◌, Bool, true, false, ◌||◌, Option, none, some, List, [], ◌∷◌, if◌then◌else◌, leb,
}
use apex_xauusd_engine.Prelude.Rat.{
  ℚ, ltb_ℚ, leb_ℚ, eqb_ℚ, zero_ℚ, lit, of_ℕ, max_ℚ, min_ℚ, abs_ℚ, ◌+ℚ◌, ◌-ℚ◌, ◌*ℚ◌, ◌/ℚ◌,
}
use apex_xauusd_engine.Domain.{
  SetupOpportunityNode, SetupQualityTier, invalid_setup, standard, high_probability,
  elite_institutional, ConfirmationSnapshot, OrderDirection, buy, sell, is_buy, TickNode, mid,
  CandleNode, LiquidityPool,
}

unfoldable pub quality_score : ℚ → ConfirmationSnapshot → ℚ
quality_score estimated_rr confirmation =
    confirmation.confidence_score *ℚ lit 7 1
    +ℚ min_ℚ (estimated_rr /ℚ lit 3 0 *ℚ lit 100 0) (lit 100 0) *ℚ lit 3 1

-- The setup type and the state are not read.
unfoldable pub classify_setup_quality : ℚ → ConfirmationSnapshot → SetupQualityTier × ℚ
classify_setup_quality estimated_rr confirmation =
    let score = quality_score estimated_rr confirmation in
    if ltb_ℚ estimated_rr (lit 15 1) || ltb_ℚ score (lit 60 0)
    then (invalid_setup, score)
    else if leb_ℚ (lit 88 0) score
    then (elite_institutional, score)
    else if leb_ℚ (lit 75 0) score
    then (high_probability, score)
    else (standard, score)

-- Whether the setup has expired; the text says the same.
unfoldable pub evaluate_invalidation : SetupOpportunityNode → ℕ → Bool
evaluate_invalidation setup current_time = leb setup.expiration_time current_time

-- `total_seconds`, of a difference that stops at 0
unfoldable pub elapsed_seconds : SetupOpportunityNode → ℕ → ℚ
elapsed_seconds setup current_time = of_ℕ (current_time - setup.creation_time) /ℚ lit 1000000 0

unfoldable pub decay_of : ℚ → ℚ
decay_of elapsed = min_ℚ (elapsed /ℚ lit 2700 0 *ℚ lit 20 0) (lit 20 0)

unfoldable pub apply_confidence_decay : SetupOpportunityNode → ℕ → SetupOpportunityNode
apply_confidence_decay setup current_time = record setup {
  confidence_score =
      max_ℚ (setup.confidence_score -ℚ decay_of (elapsed_seconds setup current_time)) zero_ℚ;
}

-- What a detector returns.
pub record Detection : Type 0 where
  pub found : Bool
  pub direction : OrderDirection
  pub entry : ℚ
  pub stop : ℚ
  pub target : ℚ

abbrev pub nothing_found : Detection
nothing_found = record {
  found = false;
  direction = buy;
  entry = zero_ℚ;
  stop = zero_ℚ;
  target = zero_ℚ;
}

abbrev pub against : LiquidityPool → OrderDirection
against pool = if pool.is_buy_side then sell else buy

abbrev pub reversal_at : OrderDirection → ℚ → Detection
reversal_at sell entry = record {
  found = true;
  direction = sell;
  entry = entry;
  stop = entry +ℚ lit 2 0;
  target = entry -ℚ lit 6 0;
}
reversal_at buy entry = record {
  found = true;
  direction = buy;
  entry = entry;
  stop = entry -ℚ lit 2 0;
  target = entry +ℚ lit 6 0;
}

-- The pivots and the state are not read.
unfoldable pub evaluate_sweep_reversal : TickNode → List LiquidityPool → Detection
evaluate_sweep_reversal tick [] = nothing_found
evaluate_sweep_reversal tick (pool ∷ pools) =
    let rest = evaluate_sweep_reversal tick pools in
    if pool.is_swept then reversal_at (against pool) (mid tick) else rest

-- `abs(entry - stop) or 1.0`
abbrev pub risk_or_one : ℚ → ℚ → ℚ
risk_or_one entry stop =
    if eqb_ℚ (abs_ℚ (entry -ℚ stop)) zero_ℚ then lit 1 0 else abs_ℚ (entry -ℚ stop)

unfoldable pub continuation_at : OrderDirection → CandleNode → Detection
continuation_at buy c = record {
  found = true;
  direction = buy;
  entry = c.close_p;
  stop = c.low_p;
  target = c.close_p +ℚ risk_or_one c.close_p c.low_p *ℚ lit 3 0;
}
continuation_at sell c = record {
  found = true;
  direction = sell;
  entry = c.close_p;
  stop = c.high_p;
  target = c.close_p -ℚ risk_or_one c.close_p c.high_p *ℚ lit 3 0;
}

-- An order block is its direction, where it has one; the loop returns at the first.
unfoldable pub evaluate_ob_continuation : CandleNode → List (Option OrderDirection) → Detection
unfolding continuation_at
evaluate_ob_continuation c [] = nothing_found
evaluate_ob_continuation c (some direction ∷ rest) = continuation_at direction c
evaluate_ob_continuation c (none ∷ rest) = continuation_at buy c
