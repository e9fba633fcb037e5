-- ===== src/Analytics/RiskManagement/Passed.antt =====
-- What the checks of src/analytics/ict_smc/risk_management.py let through.
use apex_xauusd_engine.Prelude.{
  ◌≡◌, refl, Bool, true, false, not, ◌&&◌, ◌||◌, Option, none, some, if◌then◌else◌, arith, length,
}
use apex_xauusd_engine.Prelude.Rat.{ℚ, zero_ℚ, ltb_ℚ, leb_ℚ, ◌+ℚ◌, ◌*ℚ◌}
use apex_xauusd_engine.Analytics.RiskManagement.Types.{
  RiskDirection, long, short, no_direction, Signal, AccountState, RiskConfig, RiskReason,
  max_daily_loss_reached,
}
use apex_xauusd_engine.Analytics.RiskManagement.Limits.{
  spread_rejection, Prices, stop_rejection, risk_distance, is_long, is_short, percent_of, loss_of,
  over, no_room, correlated_open_risk, same_symbol, portfolio_limit_rejection,
}
use apex_xauusd_engine.Analytics.RiskManagement.Decisions.{RiskDecisionStatus, rejected}
use apex_xauusd_engine.Analytics.RiskManagement.Validate.{entry_rejection, has_direction}

passed {ℓ} :
    {A : Type ℓ} (b : Bool) (r : A) (rest : Option A)
    → (if b then some r else rest) ≡ none
    → (b ≡ false) × (rest ≡ none)
passed true r rest h = ground arith
passed false r rest h = (refl, h)

is_on : (b : Bool) → not b ≡ false → b ≡ true
is_on b h = ground arith

neither : (b c : Bool) → (b || c) ≡ false → (b ≡ false) × (c ≡ false)
neither b c h = ground arith

no_reason :
    (o : Option RiskReason)
    → elim o as (λ x. Option (RiskReason × RiskDecisionStatus)) [
      | none ↦ none
      | some reason ↦ some (reason, rejected)
    ]
      ≡ none
    → o ≡ none
no_reason none h = refl
no_reason (some r) h = ground arith

abbrev pub over_multiple : AccountState → RiskConfig → Bool
over_multiple a c =
    ltb_ℚ zero_ℚ c.abnormal_spread_multiplier
    && ltb_ℚ (a.average_spread *ℚ c.abnormal_spread_multiplier) a.current_spread

-- The account may trade, at a spread that is allowed.
abbrev pub MayTrade : Signal → AccountState → RiskConfig → Type 0
MayTrade s a c =
    (s.stop_valid ≡ true)
    × (ltb_ℚ zero_ℚ a.balance ≡ true)
    × (ltb_ℚ zero_ℚ a.equity ≡ true)
    × (ltb_ℚ zero_ℚ c.pip_value ≡ true)
    × (a.trading_locked ≡ false)
    × (a.news_restricted ≡ false)
    × (over c.max_spread a.current_spread ≡ false)
    × ((ltb_ℚ zero_ℚ a.average_spread && over_multiple a c) ≡ false)

spread_rejection-passed :
    (a : AccountState) (c : RiskConfig)
    → spread_rejection a c ≡ none
    → (over c.max_spread a.current_spread ≡ false)
      × ((ltb_ℚ zero_ℚ a.average_spread && over_multiple a c) ≡ false)
unfolding spread_rejection
spread_rejection-passed a c h =
    let (high, rest) = passed _ _ _ h in
    let (abnormal, done) = passed _ _ _ rest in (high, abnormal)

pub entry_rejection-MayTrade :
    (s : Signal) (a : AccountState) (c : RiskConfig) → entry_rejection s a c ≡ none → MayTrade s a c
unfolding entry_rejection
entry_rejection-MayTrade s a c h =
    let (stop, h1) = passed _ _ _ h in
    let (funds, h2) = passed _ _ _ h1 in
    let (pip, h3) = passed _ _ _ h2 in
    let (locked, h4) = passed _ _ _ h3 in
    let (news, h5) = passed _ _ _ h4 in
    let (balance, equity) = neither _ _ funds in
    let spreads = spread_rejection-passed a c (no_reason (spread_rejection a c) h5) in
    (is_on _ stop, is_on _ balance, is_on _ equity, is_on _ pip, locked, news, spreads.0, spreads.1)

abbrev pub losing_side : RiskDirection → Prices → ℚ × ℚ
losing_side long p = (p.stop_at, p.entry_at)
losing_side short p = (p.entry_at, p.stop_at)
losing_side no_direction p = (p.stop_at, p.entry_at)

on_side :
    (direction : RiskDirection) (p : Prices)
    → has_direction direction ≡ true
    → (is_long direction && leb_ℚ p.entry_at p.stop_at) ≡ false
    → (is_short direction && leb_ℚ p.stop_at p.entry_at) ≡ false
    → ltb_ℚ (losing_side direction p).0 (losing_side direction p).1 ≡ true
on_side long p directed h k = is_on _ h
on_side short p directed h k = is_on _ k
on_side no_direction p directed h k = ground arith

-- The stop is on the losing side of the entry, and far enough from it.
abbrev pub StopsLoss : RiskDirection → Prices → RiskConfig → Type 0
StopsLoss direction p c =
    (ltb_ℚ zero_ℚ (risk_distance p) ≡ true)
    × ((ltb_ℚ zero_ℚ c.min_stop_distance && ltb_ℚ (risk_distance p) c.min_stop_distance) ≡ false)
    × (ltb_ℚ (losing_side direction p).0 (losing_side direction p).1 ≡ true)

pub stop_rejection-StopsLoss :
    (direction : RiskDirection) (p : Prices) (c : RiskConfig)
    → has_direction direction ≡ true
    → stop_rejection direction p c ≡ none
    → StopsLoss direction p c
unfolding stop_rejection
stop_rejection-StopsLoss direction p c directed h =
    let (distance, h1) = passed _ _ _ h in
    let (tight, h2) = passed _ _ _ h1 in
    let (long_side, h3) = passed _ _ _ h2 in
    let (short_side, done) = passed _ _ _ h3 in
    (is_on _ distance, tight, on_side direction p directed long_side short_side)

-- a limit is set, and used up
abbrev pub reached : ℚ → ℚ → Bool
reached limit value = ltb_ℚ zero_ℚ limit && leb_ℚ limit value

-- The account keeps within its limits with one more risk.
abbrev pub WithinLimits : Signal → AccountState → RiskConfig → ℚ → Type 0
WithinLimits s a c risk =
    (reached (percent_of a.balance c.max_daily_loss_percent) (loss_of a.daily_realized_pnl) ≡ false)
    × (reached (percent_of a.balance c.max_weekly_loss_percent) (loss_of a.weekly_realized_pnl)
        ≡ false)
    × (over (percent_of a.balance c.max_daily_loss_percent) (loss_of a.daily_realized_pnl +ℚ risk)
        ≡ false)
    × (over (percent_of a.balance c.max_weekly_loss_percent) (loss_of a.weekly_realized_pnl +ℚ risk)
        ≡ false)
    × (over (percent_of a.balance c.max_open_risk_percent) (a.current_open_risk +ℚ risk) ≡ false)
    × (over (percent_of a.balance c.max_correlated_risk_percent) (correlated_open_risk s a +ℚ risk)
        ≡ false)
    × (no_room c.max_positions (length a.open_positions) ≡ false)
    × (no_room c.max_positions_per_symbol (same_symbol s a) ≡ false)

pub portfolio_limit_rejection-WithinLimits :
    (s : Signal) (a : AccountState) (c : RiskConfig) (risk : ℚ)
    → portfolio_limit_rejection s a c risk ≡ none
    → WithinLimits s a c risk
unfolding portfolio_limit_rejection
portfolio_limit_rejection-WithinLimits s a c risk h =
    let (daily_reached, h1) =
      passed
        (reached (percent_of a.balance c.max_daily_loss_percent) (loss_of a.daily_realized_pnl))
        max_daily_loss_reached _ h in
    let (weekly_reached, h2) = passed _ _ _ h1 in
    let (daily, h3) = passed _ _ _ h2 in
    let (weekly, h4) = passed _ _ _ h3 in
    let (total, h5) = passed _ _ _ h4 in
    let (correlated, h6) = passed _ _ _ h5 in
    let (count, h7) = passed _ _ _ h6 in
    let (symbol, done) = passed _ _ _ h7 in
    (daily_reached, weekly_reached, daily, weekly, total, correlated, count, symbol)
