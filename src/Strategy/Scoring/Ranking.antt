-- ===== src/Strategy/Scoring/Ranking.antt =====
-- Which setups src/strategy/scoring_matrix.py calls executable.
use apex_xauusd_engine.Prelude.{
  ℕ, ◌≤◌, ◌≡◌, ◌≢◌, refl, true, false, inl, inr, arith, Bool-cases, if_both, length, length-drop,
  is_empty,
}
use apex_xauusd_engine.Prelude.Dict.{Dict, insert, length-insert}
use apex_xauusd_engine.Prelude.Int.{pos, ltb_ℤ}
use apex_xauusd_engine.Prelude.Rat.{ℚ, ltb_ℚ, zero_ℚ, lit, max_ℚ, min_ℚ, ◌+ℚ◌, ◌-ℚ◌, ◌*ℚ◌}
use apex_xauusd_engine.Prelude.Rat.Order.{lt_irrefl, lt_asymm, le_trans, le-lt_trans}
use apex_xauusd_engine.Prelude.Rat.Sums.{add_le, sub-le, ltb-sub_right}
use apex_xauusd_engine.Prelude.Rat.Products.{mul_le, mul_nonneg}
use apex_xauusd_engine.Domain.{
  EngineStateContainer, SetupOpportunityNode, ConfirmationSnapshot, PrioritizedExecutionNode,
  ScoringBreakdown, SetupQualityTier, reject_trade,
}
use apex_xauusd_engine.Strategy.Scoring.{
  evaluate_structural_quality, evaluate_liquidity_quality, evaluate_momentum_quality,
  evaluate_volatility_quality, evaluate_rr_quality, evaluate_execution_efficiency,
  calculate_cumulative_penalties, weighted_total, normalized_score, score_breakdown,
  score_rejections, rank_for, execution_node, clean_registry_cache_bounds, process_and_rank_setup,
}

-- What makes a setup executable.
pub record IsExecutable (b : ScoringBreakdown) : Type 0 where
  pub score_enough : ltb_ℚ b.normalized_final_score (lit 75 0) ≡ false
  pub execution_positive : ltb_ℚ zero_ℚ b.execution_score ≡ true
  pub rr_positive : ltb_ℚ zero_ℚ b.rr_score ≡ true

IsExecutable-of : (b : ScoringBreakdown) → is_empty (score_rejections b) ≡ true → IsExecutable b
unfolding score_rejections
IsExecutable-of b h = ground arith

empty_of_IsExecutable :
    (b : ScoringBreakdown) → IsExecutable b → is_empty (score_rejections b) ≡ true
unfolding score_rejections
empty_of_IsExecutable b h = ground arith

clamp_le : (x : ℚ) → ltb_ℚ (lit 100 0) (min_ℚ (max_ℚ x zero_ℚ) (lit 100 0)) ≡ false
clamp_le x = elim (Bool-cases (ltb_ℚ (lit 100 0) (max_ℚ x zero_ℚ))) [
  | inl e ↦ rw e (lt_irrefl (lit 100 0))
  | inr e ↦ rw e e
]

hundred_nonneg : ltb_ℚ (lit 100 0) zero_ℚ ≡ false
unfolding ltb_ℚ
hundred_nonneg = refl

small_nonneg : (ltb_ℚ (lit 10 0) zero_ℚ ≡ false) × (ltb_ℚ (lit 20 0) zero_ℚ ≡ false)
unfolding ltb_ℚ
small_nonneg = (refl, refl)

weights_nonneg : (ltb_ℚ (lit 20 2) zero_ℚ ≡ false) × (ltb_ℚ (lit 15 2) zero_ℚ ≡ false)
unfolding ltb_ℚ
weights_nonneg = (refl, refl)

zero-lt-75 : ltb_ℚ zero_ℚ (lit 75 0) ≡ true
unfolding ltb_ℚ
zero-lt-75 = refl

-- The total of six perfect scores.
perfect : ℚ
unfolding weighted_total
perfect = weighted_total (lit 100 0) (lit 100 0) (lit 100 0) (lit 100 0) (lit 100 0) (lit 100 0)

perfect_le : ltb_ℚ (lit 100 0) perfect ≡ false
unfolding perfect weighted_total ltb_ℚ ◌+ℚ◌ ◌*ℚ◌
perfect_le = refl

max_zero_le : (x : ℚ) → ltb_ℚ (lit 100 0) x ≡ false → ltb_ℚ (lit 100 0) (max_ℚ zero_ℚ x) ≡ false
max_zero_le x h = elim (Bool-cases (ltb_ℚ zero_ℚ x)) [
  | inl e ↦ rw e h
  | inr e ↦ rw e hundred_nonneg
]

min_hundred_le : (x : ℚ) → ltb_ℚ (lit 100 0) (min_ℚ (lit 100 0) x) ≡ false
min_hundred_le x = elim (Bool-cases (ltb_ℚ x (lit 100 0))) [
  | inl e ↦ rw e (lt_asymm x (lit 100 0) e)
  | inr e ↦ rw e (lt_irrefl (lit 100 0))
]

liquidity_le :
    (setup : SetupOpportunityNode) → ltb_ℚ (lit 100 0) (evaluate_liquidity_quality setup) ≡ false
unfolding evaluate_liquidity_quality ltb_ℚ
liquidity_le setup = if_both (λ x. ltb_ℚ (lit 100 0) x ≡ false) _ (lit 85 0) (lit 70 0) refl refl

execution_le :
    (s : EngineStateContainer)
    → ltb_ℚ s.market.current_spread zero_ℚ ≡ false
    → ltb_ℚ (lit 100 0) (evaluate_execution_efficiency s) ≡ false
unfolding evaluate_execution_efficiency
execution_le s h =
    let cost = s.market.current_spread *ℚ lit 10 0 *ℚ lit 20 0 in
    max_zero_le (lit 100 0 -ℚ cost) (
      sub-le (lit 100 0) cost (
        mul_nonneg (s.market.current_spread *ℚ lit 10 0) (lit 20 0)
          (mul_nonneg s.market.current_spread (lit 10 0) h small_nonneg.0) small_nonneg.1))

weighted_total_le :
    (a b c d e f : ℚ)
    → ltb_ℚ (lit 100 0) a ≡ false
    → ltb_ℚ (lit 100 0) b ≡ false
    → ltb_ℚ (lit 100 0) c ≡ false
    → ltb_ℚ (lit 100 0) d ≡ false
    → ltb_ℚ (lit 100 0) e ≡ false
    → ltb_ℚ (lit 100 0) f ≡ false
    → ltb_ℚ (lit 100 0) (weighted_total a b c d e f) ≡ false
unfolding weighted_total perfect
weighted_total_le a b c d e f ha hb hc hd he hf =
    let (fifth, share) = weights_nonneg in
    le_trans (weighted_total a b c d e f) perfect (lit 100 0)
      (add_le _ _ _ _
        (add_le _ _ _ _
          (add_le _ _ _ _
            (add_le _ _ _ _
              (add_le _ _ _ _ (mul_le a (lit 100 0) (lit 20 2) ha fifth)
                (mul_le b (lit 100 0) (lit 20 2) hb fifth))
              (mul_le c (lit 100 0) (lit 15 2) hc share))
            (mul_le d (lit 100 0) (lit 15 2) hd share))
          (mul_le e (lit 100 0) (lit 15 2) he share))
        (mul_le f (lit 100 0) (lit 15 2) hf share))
      perfect_le

big_penalty :
    (s : EngineStateContainer)
    → s.positions.is_trading_halted ≡ true
    → ltb_ℚ (zero_ℚ +ℚ calculate_cumulative_penalties s) (lit 100 0) ≡ false
unfolding calculate_cumulative_penalties ltb_ℚ ◌+ℚ◌
big_penalty s halted = rw halted (
    if_both (λ x. ltb_ℚ (zero_ℚ +ℚ (x +ℚ lit 100 0)) (lit 100 0) ≡ false)
      (ltb_ℤ (pos 0) s.positions.active_position_count) (lit 10 0) zero_ℚ refl refl)

-- In a halted engine the penalties outweigh any score.
halted_score :
    (s : EngineStateContainer) (raw : ℚ)
    → s.positions.is_trading_halted ≡ true
    → ltb_ℚ (lit 100 0) raw ≡ false
    → ltb_ℚ zero_ℚ (raw -ℚ calculate_cumulative_penalties s) ≡ false
halted_score s raw halted h =
    rw (ltb-sub_right raw (calculate_cumulative_penalties s) zero_ℚ) (
      le_trans raw (lit 100 0) (zero_ℚ +ℚ calculate_cumulative_penalties s) h
        (big_penalty s halted))

low_score :
    (x y : ℚ) → ltb_ℚ zero_ℚ (x -ℚ y) ≡ false → ltb_ℚ (normalized_score x y) (lit 75 0) ≡ true
unfolding normalized_score
low_score x y h =
    let d = x -ℚ y in
    rw (le_trans d zero_ℚ (lit 100 0) h hundred_nonneg) (elim (Bool-cases (ltb_ℚ d zero_ℚ)) [
      | inl e ↦ rw e zero-lt-75
      | inr e ↦ rw e (le-lt_trans d zero_ℚ (lit 75 0) h zero-lt-75)
    ])

raw_total_le :
    (s : EngineStateContainer) (setup : SetupOpportunityNode) (confirmation : ConfirmationSnapshot)
    → ltb_ℚ s.market.current_spread zero_ℚ ≡ false
    → ltb_ℚ (lit 100 0) (score_breakdown s setup confirmation).raw_total ≡ false
unfolding score_breakdown evaluate_structural_quality evaluate_momentum_quality
    evaluate_volatility_quality evaluate_rr_quality
raw_total_le s setup confirmation h =
    weighted_total_le _ _ _ _ _ _ (clamp_le setup.confidence_score) (liquidity_le setup)
      (clamp_le confirmation.confidence_score) (max_zero_le _ (min_hundred_le _))
      (max_zero_le _ (min_hundred_le _)) (execution_le s h)

multipliers_positive :
    (ltb_ℚ zero_ℚ (lit 1 0) ≡ true)
    × (ltb_ℚ zero_ℚ (lit 75 2) ≡ true)
    × (ltb_ℚ zero_ℚ (lit 50 2) ≡ true)
unfolding ltb_ℚ
multipliers_positive = (refl, refl, refl)

rank_for_executable :
    (q : SetupQualityTier) (x : ℚ)
    → ((rank_for true q x).0 ≢ reject_trade) × (ltb_ℚ zero_ℚ (rank_for true q x).2 ≡ true)
unfolding rank_for
rank_for_executable q x = ground (arith, multipliers_positive)

-- The setup may run exactly when its score, its execution score and its reward score suffice, and
-- its tier is then not a rejection and its multiplier is positive; otherwise both say rejection.
pub data Ranked (b : ScoringBreakdown) (node : PrioritizedExecutionNode) : Type 0 where
  executable :
      IsExecutable b
      → node.is_live_executable ≡ true
      → node.ranked_tier ≢ reject_trade
      → ltb_ℚ zero_ℚ node.execution_multiplier ≡ true
      → Ranked b node
  filtered :
      ¬ IsExecutable b
      → node.is_live_executable ≡ false
      → node.ranked_tier ≡ reject_trade
      → node.execution_multiplier ≡ zero_ℚ
      → Ranked b node

-- A setup that is scored is either executable (a score of at least 75, and positive scores for
-- execution and reward), with a tier that is no rejection and a positive size multiplier, or it is
-- filtered, with the tier of a rejection and the multiplier 0.
pub execution_node-Ranked :
    (now : ℕ) (s : EngineStateContainer) (setup : SetupOpportunityNode)
    (confirmation : ConfirmationSnapshot)
    → Ranked (score_breakdown s setup confirmation) (execution_node now s setup confirmation)
unfolding execution_node
execution_node-Ranked now s setup confirmation =
    let b = score_breakdown s setup confirmation in
    elim (Bool-cases (is_empty (score_rejections b))) [
      | inl e ↦
          let ranks = rank_for_executable setup.quality_tier b.normalized_final_score in
          executable (IsExecutable-of b e) e (rw e ranks.0) (rw e ranks.1)
      | inr e ↦
          filtered (λ h. grind (arith, empty_of_IsExecutable b h)) e (rw (e, rank_for) refl)
            (rw (e, rank_for) refl)
    ]

-- A halted engine whose spread is not negative has no executable setup, whatever its scores.
pub halted_never_executable :
    (now : ℕ) (s : EngineStateContainer) (setup : SetupOpportunityNode)
    (confirmation : ConfirmationSnapshot)
    → s.positions.is_trading_halted ≡ true
    → ltb_ℚ s.market.current_spread zero_ℚ ≡ false
    → (execution_node now s setup confirmation).is_live_executable ≡ false
unfolding execution_node score_breakdown
halted_never_executable now s setup confirmation halted h =
    let b = score_breakdown s setup confirmation in
    let low : ltb_ℚ b.normalized_final_score (lit 75 0) ≡ true =
      low_score b.raw_total b.applied_penalties
        (halted_score s b.raw_total halted (raw_total_le s setup confirmation h)) in
    elim (Bool-cases (is_empty (score_rejections b))) [
      | inr e ↦ e
      | inl e ↦ grind (arith, low, (IsExecutable-of b e).score_enough)
    ]

-- The registry never holds more than a thousand setups.
pub process_and_rank_setup-bounded :
    (now : ℕ) (s : EngineStateContainer) (setup : SetupOpportunityNode)
    (confirmation : ConfirmationSnapshot) (registry : Dict PrioritizedExecutionNode)
    → length registry ≤ 1000
    → length (process_and_rank_setup now s setup confirmation registry).1 ≤ 1000
unfolding process_and_rank_setup clean_registry_cache_bounds
process_and_rank_setup-bounded now s setup confirmation registry h =
    let longer = insert setup.id (execution_node now s setup confirmation) registry in
    ground (
      arith,
      length-insert setup.id (execution_node now s setup confirmation) registry,
      length-drop 1 longer,
    )
