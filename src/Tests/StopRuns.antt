-- ===== src/Tests/StopRuns.antt =====
-- The theorems on stop hardening and on the ratio of reward to risk at concrete inputs.
use apex_xauusd_engine.Prelude.{◌≡◌, refl, true, false, List, [], ◌∷◌}
use apex_xauusd_engine.Prelude.Int.{pos}
use apex_xauusd_engine.Prelude.Rat.{lit, ltb_ℚ, ◌+ℚ◌, ◌-ℚ◌, ◌*ℚ◌, ◌/ℚ◌, neg_ℚ, round_ℚ, zero_ℚ}
use apex_xauusd_engine.Domain.{SetupOpportunityNode, CandleNode}
use apex_xauusd_engine.Execution.StopHardening.{
  default_hardening, harden_for_demo_execution, required_stop_distance, recent_ranges, buffers,
  largest, median, sorted_values, insert_value, rebuild_setup, risk_reward, hardened_by, unadjusted,
}
use apex_xauusd_engine.Execution.StopHardening.Distances.{
  Outcome, harden_for_demo_execution-Outcome,
}
use apex_xauusd_engine.Execution.RewardRisk.{
  upward, risk_of, calculate_raw_rr, calculate_post_cost_rr,
}
use apex_xauusd_engine.Execution.RewardRisk.AfterCosts.{calculate_post_cost_rr-le_raw}
use apex_xauusd_engine.Tests.Data.{setup_at, candle_to}

-- A stop one below the entry, and a candle with a range of 110.
abbrev tight : SetupOpportunityNode
tight = record (setup_at (lit 1999 0) (lit 30 0)) { entry_price = lit 200000 2 }

abbrev recent : List CandleNode
recent = candle_to (lit 2005 0) ∷ []

harden_for_demo_execution-Outcome_example :
    Outcome tight (harden_for_demo_execution default_hardening tight recent (lit 3 1))
harden_for_demo_execution-Outcome_example =
    harden_for_demo_execution-Outcome tight recent (lit 3 1) (pos 200000) refl

-- The cap of 7.5 applies: the stop goes to 1992.5.
tight_hardened :
    (harden_for_demo_execution default_hardening tight recent (lit 3 1)).setup.stop_loss
    ≡ lit 199250 2
unfolding harden_for_demo_execution required_stop_distance recent_ranges buffers largest median
    sorted_values insert_value rebuild_setup risk_reward hardened_by unadjusted ltb_ℚ round_ℚ ◌+ℚ◌
    ◌-ℚ◌ ◌*ℚ◌ ◌/ℚ◌ neg_ℚ
tight_hardened = refl

one_risked : ltb_ℚ zero_ℚ (risk_of (lit 2000 0) (lit 1999 0)) ≡ true
unfolding risk_of ltb_ℚ ◌-ℚ◌ neg_ℚ
one_risked = refl

calculate_post_cost_rr-le_raw_example :
    ltb_ℚ
      (calculate_raw_rr upward (lit 2000 0) (lit 1999 0) (lit 2003 0))
      (calculate_post_cost_rr upward (lit 2000 0) (lit 1999 0) (lit 2003 0) (lit 3 1) (lit 1 1))
    ≡ false
calculate_post_cost_rr-le_raw_example =
    calculate_post_cost_rr-le_raw upward (lit 2000 0) (lit 1999 0) (lit 2003 0) (lit 3 1) (lit 1 1)
      one_risked
