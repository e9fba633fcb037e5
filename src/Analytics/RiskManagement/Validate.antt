-- ===== src/Analytics/RiskManagement/Validate.antt =====
-- src/analytics/ict_smc/risk_management.py: `validate_trade_risk`.
use apex_xauusd_engine.Prelude.{Bool, true, false, ◌||◌, not, Option, none, some, if◌then◌else◌}
use apex_xauusd_engine.Prelude.Rat.{ℚ, lit, zero_ℚ, ltb_ℚ, leb_ℚ, ◌+ℚ◌, ◌*ℚ◌}
use apex_xauusd_engine.Analytics.RiskManagement.Types.{
  RiskDirection, no_direction, RawSignal, Signal, read_signal, RawAccount, AccountState,
  read_account, RawConfig, RiskConfig, read_config, RiskReason, invalid_direction,
  missing_entry_stop_or_target, stop_marked_invalid, invalid_account_state, invalid_pip_value,
  account_protection_locked, news_window, invalid_reward_to_risk, reward_to_risk_below_minimum,
  normalized_size_exceeds_risk_limit, long, short,
}
use apex_xauusd_engine.Analytics.RiskManagement.Sizing.{
  SizingResult, calculate_position_size, normalize_position_size,
}
use apex_xauusd_engine.Analytics.RiskManagement.Limits.{
  spread_rejection, Prices, adjusted_prices, stop_rejection, reward_to_risk, percent_of,
  portfolio_limit_rejection,
}
use apex_xauusd_engine.Analytics.RiskManagement.Decisions.{
  RiskDecisionStatus, approved, rejected, invalid_input, RiskDecision, Progress, decision, reject,
  start,
}

-- The checks between the one of the prices and the one of the stop.
unfoldable pub entry_rejection :
    Signal → AccountState → RiskConfig → Option (RiskReason × RiskDecisionStatus)
unfolding spread_rejection ltb_ℚ
entry_rejection s a c =
    if not s.stop_valid
    then some (stop_marked_invalid, rejected)
    else if leb_ℚ a.balance zero_ℚ || leb_ℚ a.equity zero_ℚ
    then some (invalid_account_state, invalid_input)
    else if leb_ℚ c.pip_value zero_ℚ
    then some (invalid_pip_value, invalid_input)
    else if a.trading_locked
    then some (account_protection_locked, rejected)
    else if a.news_restricted
    then some (news_window, rejected)
    else elim (spread_rejection a c) [ none ↦ none | some reason ↦ some (reason, rejected) ]

-- The loss that a size risks, `1e-9` above the configured amount at most.
unfoldable pub validate_loss : Progress → SizingResult → ℚ → RiskDecision
unfolding decision ◌*ℚ◌ ◌+ℚ◌ ltb_ℚ
validate_loss p sizing size =
    let risk_amount = percent_of p.account.balance p.config.risk_percent in
    let actual_max_loss = size *ℚ sizing.stop_distance *ℚ p.config.pip_value in
    if ltb_ℚ (risk_amount +ℚ lit 1 9) actual_max_loss
    then reject p normalized_size_exceeds_risk_limit rejected
    else decision p approved true none size actual_max_loss

abbrev pub validate_normalized : Progress → SizingResult → ℚ → Option RiskReason → RiskDecision
validate_normalized p sizing size (some reason) = reject p reason rejected
validate_normalized p sizing size none = validate_loss p sizing size

unfoldable pub validate_sizing : Progress → SizingResult → Option RiskReason → RiskDecision
unfolding validate_loss normalize_position_size decision
validate_sizing p sizing (some reason) = reject p reason rejected
validate_sizing p sizing none =
    let normalized = normalize_position_size sizing.position_size p.config in
    validate_normalized (record p { was_capped = normalized.was_capped }) sizing normalized.size
      normalized.size_rejection

abbrev pub validate_size : Progress → SizingResult → RiskDecision
validate_size p sizing = validate_sizing p sizing sizing.rejection_reason

-- The checks of the reward and the portfolio, at a ratio.
unfoldable pub validate_ratio : Progress → Prices → ℚ → RiskDecision
unfolding validate_sizing portfolio_limit_rejection calculate_position_size ltb_ℚ
validate_ratio p adjusted rr =
    let q = record p { rr = some rr } in
    let risk_amount = percent_of p.account.balance p.config.risk_percent in
    let sizing =
      calculate_position_size (some p.account.balance) (some p.config.risk_percent)
        (some adjusted.entry_at) (some adjusted.stop_at) (some p.config.pip_value) in
    if ltb_ℚ rr p.config.min_rr
    then reject q reward_to_risk_below_minimum rejected
    else elim (portfolio_limit_rejection p.signal p.account p.config risk_amount) [
      | some reason ↦ reject q reason rejected
      | none ↦ validate_size (record q { sizing = some sizing }) sizing
    ]

unfoldable pub validate_reward : Progress → Prices → Option ℚ → RiskDecision
unfolding validate_ratio decision
validate_reward p adjusted none = reject p invalid_reward_to_risk rejected
validate_reward p adjusted (some rr) = validate_ratio p adjusted rr

unfoldable pub validate_stop : Progress → Prices → Option RiskReason → RiskDecision
unfolding validate_reward decision reward_to_risk
validate_stop p adjusted (some reason) = reject p reason rejected
validate_stop p adjusted none =
    validate_reward p adjusted (reward_to_risk p.signal.direction adjusted)

unfoldable pub validate_prices : Progress → Prices → RiskDecision
unfolding validate_stop adjusted_prices stop_rejection
validate_prices p given =
    let adjusted =
      adjusted_prices p.signal.direction given p.account.current_spread p.config.slippage_buffer in
    validate_stop (record p { adjusted = some adjusted }) adjusted
      (stop_rejection p.signal.direction adjusted p.config)

abbrev pub prices_of : Option ℚ → Option ℚ → Option ℚ → Option Prices
prices_of (some entry) (some stop) (some target) =
    some (record { entry_at = entry; stop_at = stop; target_at = target })
prices_of entry stop target = none

abbrev pub has_direction : RiskDirection → Bool
has_direction long = true
has_direction short = true
has_direction no_direction = false

unfoldable pub validate_entry :
    Progress → Prices → Option (RiskReason × RiskDecisionStatus) → RiskDecision
unfolding validate_prices decision
validate_entry p given (some (reason, status)) = reject p reason status
validate_entry p given none = validate_prices p given

unfoldable pub validate_given : Progress → Option Prices → RiskDecision
unfolding validate_entry entry_rejection decision
validate_given p none = reject p missing_entry_stop_or_target invalid_input
validate_given p (some given) = validate_entry p given (entry_rejection p.signal p.account p.config)

unfoldable pub validate_parsed : Signal → AccountState → RiskConfig → RiskDecision
unfolding validate_given decision
validate_parsed s a c =
    let p = start s a c in
    if has_direction s.direction
    then validate_given p (prices_of s.entry s.stop s.target)
    else reject p invalid_direction invalid_input

unfoldable pub validate_trade_risk : RawSignal → RawAccount → RawConfig → RiskDecision
unfolding validate_parsed read_signal read_account read_config
validate_trade_risk s a c = validate_parsed (read_signal s) (read_account a) (read_config c)
