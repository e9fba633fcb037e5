-- ===== src/Tests/StrategyRuns.antt =====
-- The theorems on scoring, confirmation, decay and the detectors at concrete inputs.
use apex_xauusd_engine.Prelude.{ℕ, ◌≡◌, refl, true, false, none, some, [], ◌∷◌, ◌↔◌, ◌==◌}
use apex_xauusd_engine.Prelude.Rat.{ltb_ℚ, leb_ℚ, lit}
use apex_xauusd_engine.Domain.{buy, sell, ConfirmationSnapshot, LiquidityPool, m1}
use apex_xauusd_engine.State.Manager.{generate_cold_boot_state}
use apex_xauusd_engine.Strategy.Confirmation.{
  bullish, neither, process_candidate_setup, is_valid_tier,
}
use apex_xauusd_engine.Strategy.Confirmation.Approval.{
  IsConfirmed, process_candidate_setup_iff, confidence_separates,
}
use apex_xauusd_engine.Strategy.Scoring.{score_breakdown, execution_node}
use apex_xauusd_engine.Strategy.Scoring.Ranking.{Ranked, execution_node-Ranked}
use apex_xauusd_engine.Strategy.Setups.{evaluate_sweep_reversal, evaluate_ob_continuation}
use apex_xauusd_engine.Strategy.Setups.Geometry.{
  Reversal, evaluate_sweep_reversal-Reversal, IsWeaklyOrdered,
  evaluate_ob_continuation-IsWeaklyOrdered,
}
use apex_xauusd_engine.Tests.Data.{tick_at, candle_to, setup_at}

abbrev confirmation : ConfirmationSnapshot
confirmation =
    (process_candidate_setup 5 (generate_cold_boot_state 0) buy (candle_to (lit 2090 0))
      (bullish ∷ neither ∷ []) (lit 3 0)).1

execution_node-Ranked_example :
    Ranked
      (score_breakdown (generate_cold_boot_state 0) (setup_at (lit 1990 0) (lit 3 0)) confirmation)
      (execution_node 8 (generate_cold_boot_state 0) (setup_at (lit 1990 0) (lit 3 0)) confirmation)
execution_node-Ranked_example =
    execution_node-Ranked 8 (generate_cold_boot_state 0) (setup_at (lit 1990 0) (lit 3 0))
      confirmation

process_candidate_setup_iff_example :
    ((process_candidate_setup 5
        (generate_cold_boot_state 0)
        buy
        (candle_to (lit 2090 0))
        (bullish ∷ neither ∷ [])
        (lit 3 0)).0
      ≡ true)
    ↔ IsConfirmed
        (generate_cold_boot_state 0)
        buy
        (candle_to (lit 2090 0))
        (bullish ∷ neither ∷ [])
        (lit 3 0)
process_candidate_setup_iff_example =
    process_candidate_setup_iff 5 (generate_cold_boot_state 0) buy (candle_to (lit 2090 0))
      (bullish ∷ neither ∷ []) (lit 3 0)

confidence_separates_example :
    let (validated, snapshot) =
      process_candidate_setup 5
        (generate_cold_boot_state 0)
        buy
        (candle_to (lit 2090 0))
        (bullish ∷ neither ∷ [])
        (lit 3 0) in
    (leb_ℚ (lit 75 0) snapshot.confidence_score ≡ validated)
    × (is_valid_tier snapshot.overall_tier ≡ validated)
confidence_separates_example =
    confidence_separates 5 (generate_cold_boot_state 0) buy (candle_to (lit 2090 0))
      (bullish ∷ neither ∷ []) (lit 3 0)

abbrev pool_with : ℕ → LiquidityPool
pool_with n = record {
  id = n;
  timeframe = m1;
  is_buy_side = true;
  is_equal_structure = false;
  ceiling_price = lit 2000 0;
  floor_price = lit 1999 0;
  accumulated_touches = 1;
  is_swept = n == 2;
  sweep_timestamp = none;
}

evaluate_sweep_reversal-Reversal_example :
    Reversal (tick_at 9 (lit 2001 0) (lit 2002 0)) (pool_with 1 ∷ pool_with 2 ∷ []) (
      evaluate_sweep_reversal
        (tick_at 9 (lit 2001 0) (lit 2002 0))
        (pool_with 1 ∷ pool_with 2 ∷ []))
evaluate_sweep_reversal-Reversal_example =
    evaluate_sweep_reversal-Reversal (tick_at 9 (lit 2001 0) (lit 2002 0))
      (pool_with 1 ∷ pool_with 2 ∷ [])

evaluate_ob_continuation-IsWeaklyOrdered_example :
    ((evaluate_ob_continuation (candle_to (lit 2023 0)) (some sell ∷ none ∷ [])).direction ≡ sell)
    × IsWeaklyOrdered sell
        (evaluate_ob_continuation (candle_to (lit 2023 0)) (some sell ∷ none ∷ []))
unfolding ltb_ℚ
evaluate_ob_continuation-IsWeaklyOrdered_example =
    evaluate_ob_continuation-IsWeaklyOrdered (candle_to (lit 2023 0)) (some sell) (none ∷ [])
      (record {
        low_le_open = refl;
        low_le_close = refl;
        open_le_high = refl;
        close_le_high = refl;
      })
