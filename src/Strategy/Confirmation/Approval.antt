-- ===== src/Strategy/Confirmation/Approval.antt =====
-- When src/strategy/confirmation_core.py validates a setup.
use apex_xauusd_engine.Prelude.{
  ℕ, ◌∙◌, ◌≡◌, ◌≢◌, refl, true, false, not, ◌↔◌, List, arith, inl, inr, Bool-cases,
}
use apex_xauusd_engine.Prelude.Rat.{ℚ, ltb_ℚ, leb_ℚ, lit}
use apex_xauusd_engine.Prelude.Rat.Order.{le_trans}
use apex_xauusd_engine.Domain.{
  EngineStateContainer, post_news_chaos, OrderDirection, CandleNode, RegimeName, AlignmentStatus,
  conflicted,
}
use apex_xauusd_engine.Strategy.Confirmation.{
  Bias, momentum_score, displacement_score, validate_momentum_pulse, verify_displacement_footprint,
  evaluate_alignment_matrix, Checks, checks_of, weighted_score, invalidation_reasons, is_validated,
  final_score, overall_tier, process_candidate_setup, is_chaos, is_valid_tier, is_aligned,
  momentum_tier, displacement_tier,
}

-- What a setup must satisfy.
pub record IsConfirmed (s : EngineStateContainer) (direction : OrderDirection) (candle : CandleNode)
    (biases : List Bias) (velocity : ℚ) : Type 0 where
  pub in_killzone : s.session.killzone_active ≡ true
  pub calm : s.regime.current_regime ≢ post_news_chaos
  pub momentum_enough : ltb_ℚ (momentum_score candle velocity) (lit 50 0) ≡ false
  pub displacement_enough : ltb_ℚ (displacement_score candle) (lit 45 0) ≡ false
  pub aligned : (evaluate_alignment_matrix direction biases).0 ≢ conflicted
  pub score_enough :
      ltb_ℚ (weighted_score (checks_of s direction candle biases velocity)) (lit 75 0) ≡ false

validated_checks :
    (c : Checks)
    → is_validated c ≡ true
    → (c.killzone ≡ true)
      × (c.chaos ≡ false)
      × (is_valid_tier c.momentum.0 ≡ true)
      × (is_valid_tier c.displacement.0 ≡ true)
      × (is_aligned c.alignment.0 ≡ true)
      × (ltb_ℚ (weighted_score c) (lit 75 0) ≡ false)
unfolding is_validated invalidation_reasons
validated_checks c h = ground arith

checks_validated :
    (c : Checks)
    → c.killzone ≡ true
    → c.chaos ≡ false
    → is_valid_tier c.momentum.0 ≡ true
    → is_valid_tier c.displacement.0 ≡ true
    → is_aligned c.alignment.0 ≡ true
    → ltb_ℚ (weighted_score c) (lit 75 0) ≡ false
    → is_validated c ≡ true
unfolding is_validated invalidation_reasons
checks_validated c k n m d a w = ground arith

fifty_le_85 : ltb_ℚ (lit 85 0) (lit 50 0) ≡ false
unfolding ltb_ℚ
fifty_le_85 = refl

momentum_valid : (x : ℚ) → is_valid_tier (momentum_tier x) ≡ not (ltb_ℚ x (lit 50 0))
momentum_valid x = elim (Bool-cases (ltb_ℚ x (lit 85 0))) [
  | inr strong ↦ rw (strong, le_trans (lit 50 0) (lit 85 0) x fifty_le_85 strong) refl
  | inl weak ↦ elim (Bool-cases (ltb_ℚ x (lit 50 0))) [
    | inl e ↦ rw (weak, e) refl
    | inr e ↦ rw (weak, e) refl
  ]
]

displacement_valid : (x : ℚ) → is_valid_tier (displacement_tier x) ≡ not (ltb_ℚ x (lit 45 0))
displacement_valid x = ground arith

calm_of : (r : RegimeName) → is_chaos r ≡ false → r ≢ post_news_chaos
calm_of r h e = ground arith

chaos_of : (r : RegimeName) → r ≢ post_news_chaos → is_chaos r ≡ false
chaos_of r h = ground arith

aligned_of : (a : AlignmentStatus) → is_aligned a ≡ true → a ≢ conflicted
aligned_of a h e = ground arith

of_aligned : (a : AlignmentStatus) → a ≢ conflicted → is_aligned a ≡ true
of_aligned a h = ground arith

module _ (now : ℕ) (s : EngineStateContainer) (direction : OrderDirection) (candle : CandleNode)
    (biases : List Bias) (velocity : ℚ) where
  IsConfirmed-of_validated :
      is_validated (checks_of s direction candle biases velocity) ≡ true
      → IsConfirmed s direction candle biases velocity
  unfolding validate_momentum_pulse verify_displacement_footprint
  IsConfirmed-of_validated h =
      let (k, n, m, d, a, w) = validated_checks (checks_of s direction candle biases velocity) h in
      record {
        in_killzone = k;
        calm = calm_of s.regime.current_regime n;
        momentum_enough = grind (arith, momentum_valid (momentum_score candle velocity));
        displacement_enough = grind (arith, displacement_valid (displacement_score candle));
        aligned = aligned_of _ a;
        score_enough = w;
      }

  validated_of_IsConfirmed :
      IsConfirmed s direction candle biases velocity
      → is_validated (checks_of s direction candle biases velocity) ≡ true
  unfolding validate_momentum_pulse verify_displacement_footprint
  validated_of_IsConfirmed h =
      checks_validated (checks_of s direction candle biases velocity) h.in_killzone
        (chaos_of s.regime.current_regime h.calm)
        (momentum_valid (momentum_score candle velocity) ∙ rw h.momentum_enough refl)
        (displacement_valid (displacement_score candle) ∙ rw h.displacement_enough refl)
        (of_aligned _ h.aligned) h.score_enough

-- A setup is validated exactly when the killzone is active, the regime is not the chaos after
-- news, momentum and displacement reach their minima, the biases are aligned at least in part, and
-- the weighted score is at least 75.
pub process_candidate_setup_iff :
    (now : ℕ) (s : EngineStateContainer) (direction : OrderDirection) (candle : CandleNode)
    (biases : List Bias) (velocity : ℚ)
    → ((process_candidate_setup now s direction candle biases velocity).0 ≡ true)
      ↔ IsConfirmed s direction candle biases velocity
unfolding process_candidate_setup
process_candidate_setup_iff now s direction candle biases velocity = (
  IsConfirmed-of_validated now s direction candle biases velocity,
  validated_of_IsConfirmed now s direction candle biases velocity,
)

below : ltb_ℚ (lit 74 0) (lit 75 0) ≡ true
unfolding ltb_ℚ
below = refl

score_separates :
    (c : Checks)
    → (leb_ℚ (lit 75 0) (final_score c) ≡ is_validated c)
      × (is_valid_tier (overall_tier c) ≡ is_validated c)
unfolding final_score overall_tier
score_separates c = elim (Bool-cases (is_validated c)) [
  | inl e ↦
      let w = (validated_checks c e).5 in
      elim (Bool-cases (ltb_ℚ (weighted_score c) (lit 88 0))) [
        | inl weak ↦ rw (e, w, weak) (refl, refl)
        | inr strong ↦ rw (e, w, strong) (refl, refl)
      ]
  | inr e ↦ elim (Bool-cases (ltb_ℚ (weighted_score c) (lit 75 0))) [
    | inl weak ↦ rw e (rw weak (rw weak refl, refl))
    | inr strong ↦ rw e (rw strong (rw below refl, refl))
  ]
]

-- The reported confidence is at least 75, and the reported tier is not the invalid one, exactly
-- when the setup is validated.
pub confidence_separates :
    (now : ℕ) (s : EngineStateContainer) (direction : OrderDirection) (candle : CandleNode)
    (biases : List Bias) (velocity : ℚ)
    → let (validated, snapshot) = process_candidate_setup now s direction candle biases velocity in
      (leb_ℚ (lit 75 0) snapshot.confidence_score ≡ validated)
      × (is_valid_tier snapshot.overall_tier ≡ validated)
unfolding process_candidate_setup
confidence_separates now s direction candle biases velocity =
    score_separates (checks_of s direction candle biases velocity)
