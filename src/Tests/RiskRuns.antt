-- ===== src/Tests/RiskRuns.antt =====
-- The theorems on the guard, the sizer and the firewall at concrete inputs.
use apex_xauusd_engine.Prelude.{◌≡◌, ◌≢◌, refl, true, false, none, [], ◌∷◌, ◌++◌, ◌↔◌, arith}
use apex_xauusd_engine.Prelude.Rat.{lit, ltb_ℚ, floor_ℚ, ◌*ℚ◌, ◌/ℚ◌, ◌-ℚ◌, ◌+ℚ◌}
use apex_xauusd_engine.Domain.{RiskEvaluationSnapshot}
use apex_xauusd_engine.Errors.{ok}
use apex_xauusd_engine.State.Manager.{generate_cold_boot_state}
use apex_xauusd_engine.Execution.Guard.{QuoteMonitor, evaluate}
use apex_xauusd_engine.Execution.Guard.Quotes.{IsSubmittable, evaluate_iff}
use apex_xauusd_engine.Execution.Sizer.{
  new_sizer, calculate_lot_size, currency_loss_per_lot, target_currency_risk,
}
use apex_xauusd_engine.Execution.Sizer.Budget.{Sizing, calculate_lot_size-Sizing}
use apex_xauusd_engine.Execution.Gates.{
  new_drawdown, evaluate_systemic_restrictions, verify_execution_safety, spread_pips,
  validate_target_feasibility,
}
use apex_xauusd_engine.Execution.Firewall.{
  Firewall, new_firewall, compile_snapshot, evaluate_trade_entry_gate,
}
use apex_xauusd_engine.Execution.Firewall.Entries.{
  IsEntry, evaluate_trade_entry_gate-IsEntry, notify_all, losses, losing_streak_blocks,
}
use apex_xauusd_engine.Tests.Data.{setup_at, gold_sizer, gold_guard, gold_submission}

evaluate_iff_example :
    ((evaluate gold_guard gold_submission).is_approved ≡ true)
    ↔ IsSubmittable gold_guard gold_submission
evaluate_iff_example = evaluate_iff gold_guard gold_submission

abbrev monitor : QuoteMonitor
monitor = record {
  maximum_inactivity_seconds = lit 5 0;
  previous_signature = none;
  last_update_time = none;
  updates_observed = 0;
}

calculate_lot_size-Sizing_example :
    Sizing gold_sizer
      (target_currency_risk gold_sizer (lit 5 1))
      (currency_loss_per_lot gold_sizer (setup_at (lit 1990 0) (lit 3 0)))
      (calculate_lot_size gold_sizer (setup_at (lit 1990 0) (lit 3 0)) (lit 5 1))
unfolding new_sizer ltb_ℚ
calculate_lot_size-Sizing_example =
    calculate_lot_size-Sizing gold_sizer {s = gold_sizer} (setup_at (lit 1990 0) (lit 3 0))
      (lit 5 1) refl

abbrev firewall : Firewall
firewall = new_firewall gold_sizer

abbrev approved_snapshot : RiskEvaluationSnapshot
approved_snapshot =
    compile_snapshot 8 new_drawdown (generate_cold_boot_state 0) (setup_at (lit 1990 0) (lit 3 0))
      (calculate_lot_size gold_sizer (setup_at (lit 1990 0) (lit 3 0)) (lit 5 1))

evaluate_trade_entry_gate-IsEntry_example :
    IsEntry
      (generate_cold_boot_state 0)
      (setup_at (lit 1990 0) (lit 3 0))
      (lit 5 1)
      firewall
      (evaluate_trade_entry_gate 8
        (generate_cold_boot_state 0)
        (setup_at (lit 1990 0) (lit 3 0))
        (lit 5 1)
        firewall).1
      true
      approved_snapshot
unfolding evaluate_trade_entry_gate new_firewall new_drawdown calculate_lot_size compile_snapshot
    generate_cold_boot_state evaluate_systemic_restrictions verify_execution_safety spread_pips
    validate_target_feasibility target_currency_risk ltb_ℚ floor_ℚ ◌*ℚ◌ ◌/ℚ◌ ◌-ℚ◌ ◌+ℚ◌
evaluate_trade_entry_gate-IsEntry_example =
    evaluate_trade_entry_gate-IsEntry 8 (generate_cold_boot_state 0)
      (setup_at (lit 1990 0) (lit 3 0)) (lit 5 1) firewall {approved = true}
      {snapshot = approved_snapshot} refl

losing_streak_blocks_example :
    (evaluate_trade_entry_gate 8
      (generate_cold_boot_state 0)
      (setup_at (lit 1990 0) (lit 3 0))
      (lit 5 1)
      (notify_all ((true ∷ false ∷ []) ++ losses 3) firewall)).0
    ≢ ok (true, approved_snapshot)
unfolding new_firewall new_drawdown
losing_streak_blocks_example =
    losing_streak_blocks 8 (generate_cold_boot_state 0) (setup_at (lit 1990 0) (lit 3 0)) (lit 5 1)
      firewall (true ∷ false ∷ []) 3 approved_snapshot (omega arith)
