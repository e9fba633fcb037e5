-- ===== src/Analytics/RiskManagement/Limits.antt =====
-- src/analytics/ict_smc/risk_management.py: the checks of spread, stop, reward and portfolio.
use apex_xauusd_engine.Prelude.{
  ℕ, Bool, true, false, ◌&&◌, Option, none, some, List, [], ◌∷◌, if◌then◌else◌, ltb, leb, ◌==◌,
  length, keep,
}
use apex_xauusd_engine.Prelude.Rat.{
  ℚ, lit, zero_ℚ, ltb_ℚ, leb_ℚ, max_ℚ, min_ℚ, abs_ℚ, ◌+ℚ◌, ◌-ℚ◌, ◌*ℚ◌, ◌/ℚ◌,
}
use apex_xauusd_engine.Analytics.RiskManagement.Types.{
  RiskDirection, long, short, no_direction, Signal, OpenPosition, AccountState, RiskConfig,
  RiskReason, spread_too_high, spread_abnormally_high, invalid_stop_distance, stop_too_tight,
  invalid_long_stop, invalid_short_stop, max_daily_loss_reached, max_weekly_loss_reached,
  projected_daily_loss_limit_exceeded, projected_weekly_loss_limit_exceeded, max_open_risk_exceeded,
  correlated_exposure_too_high, max_open_positions_reached, max_symbol_positions_reached,
  at_least_zero,
}

abbrev pub is_long : RiskDirection → Bool
is_long long = true
is_long short = false
is_long no_direction = false

abbrev pub is_short : RiskDirection → Bool
is_short long = false
is_short short = true
is_short no_direction = false

unfoldable pub spread_rejection : AccountState → RiskConfig → Option RiskReason
unfolding ltb_ℚ ◌*ℚ◌
spread_rejection a c =
    if ltb_ℚ zero_ℚ c.max_spread && ltb_ℚ c.max_spread a.current_spread
    then some spread_too_high
    else if ltb_ℚ zero_ℚ a.average_spread
        && (ltb_ℚ zero_ℚ c.abnormal_spread_multiplier
            && ltb_ℚ (a.average_spread *ℚ c.abnormal_spread_multiplier) a.current_spread)
    then some spread_abnormally_high
    else none

-- The three prices of a signal, as they are given or after costs.
pub record Prices : Type 0 where
  pub entry_at : ℚ
  pub stop_at : ℚ
  pub target_at : ℚ

unfoldable pub adjusted_prices : RiskDirection → Prices → ℚ → ℚ → Prices
unfolding ◌+ℚ◌ ◌-ℚ◌ ◌/ℚ◌ ltb_ℚ
adjusted_prices direction p spread slippage =
    let half_spread = max_ℚ zero_ℚ spread /ℚ lit 2 0 in
    let buffer = max_ℚ zero_ℚ slippage in
    if is_long direction
    then record {
      entry_at = p.entry_at +ℚ half_spread +ℚ buffer;
      stop_at = p.stop_at -ℚ half_spread;
      target_at = p.target_at -ℚ half_spread;
    }
    else record {
      entry_at = p.entry_at -ℚ half_spread -ℚ buffer;
      stop_at = p.stop_at +ℚ half_spread;
      target_at = p.target_at +ℚ half_spread;
    }

abbrev pub risk_distance : Prices → ℚ
risk_distance p = abs_ℚ (p.entry_at -ℚ p.stop_at)

unfoldable pub stop_rejection : RiskDirection → Prices → RiskConfig → Option RiskReason
unfolding ltb_ℚ ◌-ℚ◌
stop_rejection direction p c =
    if leb_ℚ (risk_distance p) zero_ℚ
    then some invalid_stop_distance
    else if ltb_ℚ zero_ℚ c.min_stop_distance && ltb_ℚ (risk_distance p) c.min_stop_distance
    then some stop_too_tight
    else if is_long direction && leb_ℚ p.entry_at p.stop_at
    then some invalid_long_stop
    else if is_short direction && leb_ℚ p.stop_at p.entry_at
    then some invalid_short_stop
    else none

abbrev pub ratio_of : ℚ → ℚ → ℚ
ratio_of reward risk = if leb_ℚ reward zero_ℚ then zero_ℚ else reward /ℚ risk

unfoldable pub reward_to_risk : RiskDirection → Prices → Option ℚ
unfolding ltb_ℚ ◌-ℚ◌ ◌/ℚ◌
reward_to_risk direction p = if leb_ℚ (risk_distance p) zero_ℚ then none else elim direction [
  | long ↦ some (ratio_of (p.target_at -ℚ p.entry_at) (risk_distance p))
  | short ↦ some (ratio_of (p.entry_at -ℚ p.target_at) (risk_distance p))
  | no_direction ↦ none
]

-- `account.balance * percent / 100.0`
abbrev pub percent_of : ℚ → ℚ → ℚ
percent_of balance percent = balance *ℚ percent /ℚ lit 100 0

abbrev pub loss_of : ℚ → ℚ
loss_of pnl = abs_ℚ (min_ℚ zero_ℚ pnl)

abbrev pub in_group : ℕ → OpenPosition → Bool
in_group group p = p.correlation_group == group

-- Positions are added in their order, to what came before.
unfoldable pub correlated_from : ℕ → ℚ → List OpenPosition → ℚ
unfolding ◌+ℚ◌ ltb_ℚ
correlated_from group total [] = total
correlated_from group total (p ∷ ps) =
    correlated_from group
      (if in_group group p then total +ℚ at_least_zero p.open_risk zero_ℚ else total) ps

abbrev pub correlated_open_risk : Signal → AccountState → ℚ
correlated_open_risk s a = correlated_from s.correlation_group zero_ℚ a.open_positions

abbrev pub correlated_position_count : Signal → AccountState → ℕ
correlated_position_count s a = length (keep (in_group s.correlation_group) a.open_positions)

abbrev pub same_symbol : Signal → AccountState → ℕ
same_symbol s a = length (keep (λ p. p.symbol == s.symbol) a.open_positions)

-- `limit > 0 and value > limit`
abbrev pub over : ℚ → ℚ → Bool
over limit value = ltb_ℚ zero_ℚ limit && ltb_ℚ limit value

-- `limit > 0 and count >= limit`
abbrev pub no_room : ℕ → ℕ → Bool
no_room limit count = ltb 0 limit && leb limit count

unfoldable pub portfolio_limit_rejection :
    Signal → AccountState → RiskConfig → ℚ → Option RiskReason
unfolding ltb_ℚ ◌*ℚ◌ ◌/ℚ◌ ◌+ℚ◌ correlated_from
portfolio_limit_rejection s a c risk_amount =
    let daily_loss = loss_of a.daily_realized_pnl in
    let weekly_loss = loss_of a.weekly_realized_pnl in
    let daily_limit = percent_of a.balance c.max_daily_loss_percent in
    let weekly_limit = percent_of a.balance c.max_weekly_loss_percent in
    if ltb_ℚ zero_ℚ daily_limit && leb_ℚ daily_limit daily_loss
    then some max_daily_loss_reached
    else if ltb_ℚ zero_ℚ weekly_limit && leb_ℚ weekly_limit weekly_loss
    then some max_weekly_loss_reached
    else if over daily_limit (daily_loss +ℚ risk_amount)
    then some projected_daily_loss_limit_exceeded
    else if over weekly_limit (weekly_loss +ℚ risk_amount)
    then some projected_weekly_loss_limit_exceeded
    else if over (percent_of a.balance c.max_open_risk_percent) (a.current_open_risk +ℚ risk_amount)
    then some max_open_risk_exceeded
    else if over (percent_of a.balance c.max_correlated_risk_percent)
        (correlated_open_risk s a +ℚ risk_amount)
    then some correlated_exposure_too_high
    else if no_room c.max_positions (length a.open_positions)
    then some max_open_positions_reached
    else if no_room c.max_positions_per_symbol (same_symbol s a)
    then some max_symbol_positions_reached
    else none
