-- ===== src/Execution/Firewall.antt =====
-- src/execution/risk_firewall.py: `RiskManagementOrchestrator`. The logger's calls and the event
-- bus, which its methods do not use, are left out.
pub mod Entries
use apex_xauusd_engine.Prelude.{
  ℕ, Bool, true, false, not, ◌&&◌, List, [], ◌∷◌, ◌++◌, if◌then◌else◌, is_empty, Option, some, none,
}
use apex_xauusd_engine.Prelude.Dict.{Dict, insert}
use apex_xauusd_engine.Prelude.Rat.{ℚ, leb_ℚ, zero_ℚ, lit}
use apex_xauusd_engine.Domain.{
  EngineStateContainer, SetupOpportunityNode, RiskHaltState, nominal, daily_loss_breached,
  consecutive_loss_breached, trading_halted, RiskSafetyTier, reject, controlled_risk,
  safe_institutional, PositionSizingPayload, RiskRejection, systemic_risk_halt_active, gate_message,
  GateMessage, position_sizing_calculation_failed, position_sizing_generated_lot_zero_allocation,
  RiskEvaluationSnapshot,
}
use apex_xauusd_engine.Errors.{
  Error, validation_error, infrastructure_error, state_corruption_error, value_error, runtime_error,
  Result, ok, err,
}
use apex_xauusd_engine.Execution.Gates.{
  spread_pips, default_max_spread_pips, default_minimum_rr, verify_execution_safety,
  validate_target_feasibility, Drawdown, new_drawdown, evaluate_systemic_restrictions,
  register_execution_win_event, register_execution_loss_event,
}
use apex_xauusd_engine.Execution.Sizer.{PositionSizer, calculate_lot_size}

pub record Firewall : Type 0 where
  pub sizer : PositionSizer
  pub drawdown : Drawdown
  pub audits : Dict RiskEvaluationSnapshot

-- `__init__` with a position sizer
unfoldable pub new_firewall : PositionSizer → Firewall
new_firewall sizer = record { sizer = sizer; drawdown = new_drawdown; audits = [] }

abbrev pub reasons_of_halt : RiskHaltState → List RiskRejection
reasons_of_halt nominal = []
reasons_of_halt daily_loss_breached = systemic_risk_halt_active daily_loss_breached ∷ []
reasons_of_halt consecutive_loss_breached = systemic_risk_halt_active consecutive_loss_breached ∷ []
reasons_of_halt trading_halted = systemic_risk_halt_active trading_halted ∷ []

abbrev pub reasons_of_gate : Bool × GateMessage → List RiskRejection
reasons_of_gate (true, message) = []
reasons_of_gate (false, message) = gate_message message ∷ []

abbrev pub no_size : PositionSizingPayload
no_size = record {
  calculated_lots = zero_ℚ;
  risk_percentage_applied = zero_ℚ;
  currency_risk = zero_ℚ;
}

-- The size after `try … except (RuntimeError, ValueError)`, and what the handler appends.
abbrev pub payload_of : Result PositionSizingPayload → PositionSizingPayload
payload_of (ok p) = p
payload_of (err e) = no_size

abbrev pub reasons_of_sizing : Result PositionSizingPayload → List RiskRejection
reasons_of_sizing (ok p) = []
reasons_of_sizing (err e) = position_sizing_calculation_failed ∷ []

abbrev pub reasons_of_lots : ℚ → List RiskRejection
reasons_of_lots lots =
    if leb_ℚ lots zero_ℚ then position_sizing_generated_lot_zero_allocation ∷ [] else []

unfoldable pub firewall_reasons :
    Drawdown
    → EngineStateContainer
    → SetupOpportunityNode
    → Result PositionSizingPayload
    → List RiskRejection
firewall_reasons drawdown state setup sizing =
    reasons_of_halt (evaluate_systemic_restrictions drawdown state)
    ++ reasons_of_gate (verify_execution_safety default_max_spread_pips state)
    ++ reasons_of_gate (validate_target_feasibility default_minimum_rr setup)
    ++ reasons_of_sizing sizing
    ++ reasons_of_lots (payload_of sizing).calculated_lots

abbrev pub safety_tier_for : Bool → PositionSizingPayload → RiskSafetyTier
safety_tier_for true p =
    if leb_ℚ (lit 8 1) p.risk_percentage_applied then safe_institutional else controlled_risk
safety_tier_for false p = reject

-- The snapshot that `evaluate_trade_entry_gate` builds from the answer of the sizer.
unfoldable pub compile_snapshot :
    ℕ
    → Drawdown
    → EngineStateContainer
    → SetupOpportunityNode
    → Result PositionSizingPayload
    → RiskEvaluationSnapshot
unfolding firewall_reasons
compile_snapshot now drawdown state setup sizing =
    let reasons = firewall_reasons drawdown state setup sizing in
    record {
      timestamp = now;
      is_approved = is_empty reasons;
      safety_tier = safety_tier_for (is_empty reasons) (payload_of sizing);
      halt_state = evaluate_systemic_restrictions drawdown state;
      sizing = payload_of sizing;
      applied_spread_pips = spread_pips state;
      rejection_reasons = reasons;
    }

-- The errors that `except (RuntimeError, ValueError)` catches.
abbrev pub is_caught : Error → Bool
is_caught value_error = true
is_caught runtime_error = true
is_caught validation_error = false
is_caught infrastructure_error = false
is_caught state_corruption_error = false

abbrev pub escapes : Result PositionSizingPayload → Option Error
escapes (ok p) = none
escapes (err e) = if is_caught e then none else some e

-- The end of `evaluate_trade_entry_gate`: the audit and the answer, or the error that escapes.
abbrev pub conclude :
    Option Error
    → ℕ
    → RiskEvaluationSnapshot
    → Firewall
    → Result (Bool × RiskEvaluationSnapshot) × Firewall
conclude (some e) id snapshot f = (err e, f)
conclude none id snapshot f =
    (ok (snapshot.is_approved, snapshot), record f { audits = insert id snapshot f.audits })

-- The confirmation is not read.
unfoldable pub evaluate_trade_entry_gate :
    ℕ
    → EngineStateContainer
    → SetupOpportunityNode
    → ℚ
    → Firewall
    → Result (Bool × RiskEvaluationSnapshot) × Firewall
unfolding compile_snapshot
evaluate_trade_entry_gate now state setup quality_score_multiplier f =
    let sizing = calculate_lot_size f.sizer setup quality_score_multiplier in
    conclude (escapes sizing) setup.id (compile_snapshot now f.drawdown state setup sizing) f

unfoldable pub notify_transaction_outcome : Bool → Firewall → Firewall
notify_transaction_outcome true f = record f { drawdown = register_execution_win_event f.drawdown }
notify_transaction_outcome false f = record f {
  drawdown = register_execution_loss_event f.drawdown;
}

-- `terminate`
unfoldable pub terminate : Firewall → Firewall
terminate f = record f { audits = [] }
