-- ===== src/Execution/Gates.antt =====
-- src/execution/slippage_protection.py, safety_filters.py, rr_validator.py and
-- drawdown_protection.py.
use apex_xauusd_engine.Prelude.{ℕ, ◌+◌, Bool, true, false, if◌then◌else◌, leb}
use apex_xauusd_engine.Prelude.Rat.{ℚ, ltb_ℚ, leb_ℚ, lit, ◌*ℚ◌}
use apex_xauusd_engine.Domain.{
  EngineStateContainer, SetupOpportunityNode, RiskHaltState, nominal, daily_loss_breached,
  consecutive_loss_breached, trading_halted, GateMessage, fine, spread_above_routing_limit,
  spread_above_execution_limit, halted, risk_reward_below_minimum,
}

-- `current_spread * 10.0`
unfoldable pub spread_pips : EngineStateContainer → ℚ
spread_pips s = s.market.current_spread *ℚ lit 10 0

abbrev pub default_max_spread_pips : ℚ
default_max_spread_pips = lit 35 1

unfoldable pub verify_execution_parameters : ℚ → EngineStateContainer → Bool × GateMessage
verify_execution_parameters max_spread_pips s =
    if ltb_ℚ max_spread_pips (spread_pips s)
    then (false, spread_above_routing_limit)
    else (true, fine)

unfoldable pub verify_execution_safety : ℚ → EngineStateContainer → Bool × GateMessage
verify_execution_safety max_spread_pips s =
    if ltb_ℚ max_spread_pips (spread_pips s)
    then (false, spread_above_execution_limit)
    else if s.positions.is_trading_halted
    then (false, halted)
    else (true, fine)

abbrev pub default_minimum_rr : ℚ
default_minimum_rr = lit 15 1

unfoldable pub validate_target_feasibility : ℚ → SetupOpportunityNode → Bool × GateMessage
validate_target_feasibility minimum_rr setup =
    if ltb_ℚ setup.estimated_rr minimum_rr then (false, risk_reward_below_minimum) else (true, fine)

-- `CapitalProtectionDrawdownEngine`
pub record Drawdown : Type 0 where
  pub max_daily_loss_pct : ℚ
  pub max_consecutive_losses : ℕ
  pub consecutive_losses : ℕ

unfoldable pub new_drawdown : Drawdown
new_drawdown = record {
  max_daily_loss_pct = lit 30 1;
  max_consecutive_losses = 3;
  consecutive_losses = 0;
}

unfoldable pub evaluate_systemic_restrictions : Drawdown → EngineStateContainer → RiskHaltState
evaluate_systemic_restrictions d s =
    if s.positions.is_trading_halted
    then trading_halted
    else if leb_ℚ d.max_daily_loss_pct s.positions.daily_realized_loss_pct
    then daily_loss_breached
    else if leb d.max_consecutive_losses d.consecutive_losses
    then consecutive_loss_breached
    else nominal

unfoldable pub register_execution_win_event : Drawdown → Drawdown
register_execution_win_event d = record d { consecutive_losses = 0 }

unfoldable pub register_execution_loss_event : Drawdown → Drawdown
register_execution_loss_event d = record d { consecutive_losses = d.consecutive_losses + 1 }
