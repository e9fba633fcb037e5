-- ===== src/Tests/GateRuns.antt =====
-- The theorem on the ICT/SMC risk gate at concrete inputs.
use apex_xauusd_engine.Prelude.{◌≡◌, refl, true, false, none, some, []}
use apex_xauusd_engine.Prelude.Rat.{
  lit, zero_ℚ, ltb_ℚ, round_ℚ, nearest_ℚ, floor_ℚ, ◌+ℚ◌, ◌-ℚ◌, ◌*ℚ◌, ◌/ℚ◌,
}
use apex_xauusd_engine.Analytics.RiskManagement.Types.{
  RawSignal, RawAccount, RawConfig, read_signal, read_account, read_config, long_word,
}
use apex_xauusd_engine.Analytics.RiskManagement.Sizing.{
  calculate_position_size, size_of, sizing_result, normalize_position_size, floor_to_step,
}
use apex_xauusd_engine.Analytics.RiskManagement.Limits.{
  spread_rejection, adjusted_prices, stop_rejection, reward_to_risk, portfolio_limit_rejection,
  correlated_from,
}
use apex_xauusd_engine.Analytics.RiskManagement.Decisions.{RiskDecision, decision, report_of}
use apex_xauusd_engine.Analytics.RiskManagement.Validate.{
  validate_trade_risk, validate_parsed, validate_given, validate_entry, entry_rejection,
  validate_prices, validate_stop, validate_reward, validate_ratio, validate_sizing, validate_loss,
}
use apex_xauusd_engine.Analytics.RiskManagement.Approval.{IsDecided}
use apex_xauusd_engine.Analytics.RiskManagement.Wider.{calculate_position_size_antitone}
use apex_xauusd_engine.Analytics.RiskManagement.Decided.{validate_trade_risk-IsDecided}

abbrev long_signal : RawSignal
long_signal = record {
  raw_id = none;
  raw_symbol = none;
  raw_direction = long_word;
  raw_entry = some (lit 2000 0);
  raw_stop = some (lit 1990 0);
  raw_target = some (lit 2030 0);
  raw_score = none;
  raw_group = none;
  raw_stop_valid = none;
}

abbrev funded : RawAccount
funded = record {
  raw_balance = some (lit 10000 0);
  raw_equity = some zero_ℚ;
  raw_daily_pnl = none;
  raw_weekly_pnl = none;
  raw_open_risk = none;
  raw_spread = none;
  raw_average_spread = none;
  raw_positions = [];
  raw_locked = none;
  raw_news = none;
}

abbrev defaults : RawConfig
defaults = record {
  raw_risk_percent = none;
  raw_pip_value = some (lit 100 0);
  raw_min_rr = none;
  raw_min_size = none;
  raw_max_size = none;
  raw_lot_step = none;
  raw_daily_loss = none;
  raw_weekly_loss = none;
  raw_total_risk = none;
  raw_correlated_risk = none;
  raw_max_spread = none;
  raw_multiplier = none;
  raw_slippage = none;
  raw_min_stop = none;
  raw_cap = none;
  raw_max_positions = none;
  raw_max_per_symbol = none;
}

validate_trade_risk-IsDecided_example :
    IsDecided
      (read_signal long_signal)
      (read_account funded)
      (read_config defaults)
      (validate_trade_risk long_signal funded defaults)
validate_trade_risk-IsDecided_example = validate_trade_risk-IsDecided long_signal funded defaults

-- A stop twice as far away.
calculate_position_size_antitone_example :
    let near =
      calculate_position_size
        (some (lit 10000 0))
        (some (lit 5 1))
        (some (lit 2000 0))
        (some (lit 1990 0))
        (some (lit 100 0)) in
    let far =
      calculate_position_size
        (some (lit 10000 0))
        (some (lit 5 1))
        (some (lit 2000 0))
        (some (lit 1980 0))
        (some (lit 100 0)) in
    (near.rejection_reason ≡ none)
    × (far.rejection_reason ≡ none)
    × (ltb_ℚ near.position_size far.position_size ≡ false)
unfolding ltb_ℚ ◌-ℚ◌
calculate_position_size_antitone_example =
    calculate_position_size_antitone (lit 10000 0) (lit 5 1) (lit 2000 0) (lit 1990 0) (lit 1980 0)
      (lit 100 0) refl refl refl refl refl

-- An account without equity is approved: its equity is read as its balance.
zero_equity_approved : (validate_trade_risk long_signal funded defaults).is_approved ≡ true
unfolding validate_trade_risk validate_parsed validate_given validate_entry entry_rejection
    validate_prices validate_stop validate_reward validate_ratio validate_sizing validate_loss
    decision report_of spread_rejection adjusted_prices stop_rejection reward_to_risk
    portfolio_limit_rejection correlated_from calculate_position_size size_of sizing_result
    normalize_position_size floor_to_step read_signal read_account read_config ltb_ℚ round_ℚ
    nearest_ℚ floor_ℚ ◌+ℚ◌ ◌-ℚ◌ ◌*ℚ◌ ◌/ℚ◌
zero_equity_approved = refl

-- Without a lot step, the size that is reported is above the one that was checked: the cap of 0.0000496
-- loses the budget of 49.6, and 0.00005 is reported, which loses 50.
abbrev unstepped : RawConfig
unstepped = record defaults {
  raw_pip_value = some (lit 100000 0);
  raw_min_size = some zero_ℚ;
  raw_max_size = some (lit 496 7);
  raw_lot_step = some zero_ℚ;
}

abbrev small_account : RawAccount
small_account = record funded { raw_balance = some (lit 9920 0) }

abbrev rounded_up : RiskDecision
rounded_up = validate_trade_risk long_signal small_account unstepped

size_rounded_up :
    (rounded_up.is_approved ≡ true)
    × (ltb_ℚ (lit 496 1) (rounded_up.position_size *ℚ lit 10 0 *ℚ lit 100000 0) ≡ true)
unfolding validate_trade_risk validate_parsed validate_given validate_entry entry_rejection
    validate_prices validate_stop validate_reward validate_ratio validate_sizing validate_loss
    decision report_of spread_rejection adjusted_prices stop_rejection reward_to_risk
    portfolio_limit_rejection correlated_from calculate_position_size size_of sizing_result
    normalize_position_size floor_to_step read_signal read_account read_config ltb_ℚ round_ℚ
    nearest_ℚ floor_ℚ ◌+ℚ◌ ◌-ℚ◌ ◌*ℚ◌ ◌/ℚ◌
size_rounded_up = (refl, refl)
