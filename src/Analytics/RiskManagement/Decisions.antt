-- ===== src/Analytics/RiskManagement/Decisions.antt =====
-- src/analytics/ict_smc/risk_management.py: its decisions. A decision carries the parsed inputs,
-- which its dictionary repeats, rounded, with the limits that follow from them.
use apex_xauusd_engine.Prelude.{ℕ, Bool, false, Option, none, some}
use apex_xauusd_engine.Prelude.Rat.{ℚ, zero_ℚ, round_ℚ, ◌+ℚ◌, ◌*ℚ◌, ◌/ℚ◌}
use apex_xauusd_engine.Analytics.RiskManagement.Types.{Signal, AccountState, RiskConfig, RiskReason}
use apex_xauusd_engine.Analytics.RiskManagement.Sizing.{SizingResult, reported}
use apex_xauusd_engine.Analytics.RiskManagement.Limits.{
  Prices, percent_of, correlated_open_risk, correlated_position_count,
}

pub data RiskDecisionStatus : Type 0 where
  approved rejected invalid_input : RiskDecisionStatus

-- The limits and the correlation details of a decision.
pub record RiskReport : Type 0 where
  pub configured_risk_amount : ℚ
  pub daily_loss_limit : ℚ
  pub weekly_loss_limit : ℚ
  pub open_risk_limit : ℚ
  pub correlated_risk_limit : ℚ
  pub open_positions_in_group : ℕ
  pub current_correlated_risk : ℚ
  pub projected_correlated_risk : ℚ

pub record RiskDecision : Type 0 where
  pub signal : Signal
  pub account : AccountState
  pub config : RiskConfig
  pub status : RiskDecisionStatus
  pub is_approved : Bool
  pub rejection_reason : Option RiskReason
  pub position_size : ℚ
  pub max_loss : ℚ
  pub rr : Option ℚ
  -- beside the two warnings that every decision has
  pub was_capped : Bool
  pub adjusted : Option Prices
  pub sizing : Option SizingResult
  pub report : RiskReport

abbrev pub rounded : ℚ → ℚ
rounded x = round_ℚ x 6

abbrev pub rounded? : Option ℚ → Option ℚ
rounded? none = none
rounded? (some x) = some (rounded x)

abbrev pub rounded_prices : Option Prices → Option Prices
rounded_prices none = none
rounded_prices (some p) = some (record {
  entry_at = rounded p.entry_at;
  stop_at = rounded p.stop_at;
  target_at = rounded p.target_at;
})

unfoldable pub report_of : Signal → AccountState → RiskConfig → RiskReport
unfolding round_ℚ ◌+ℚ◌ ◌*ℚ◌ ◌/ℚ◌
report_of s a c =
    let risk_amount = percent_of a.balance c.risk_percent in
    let correlated_risk = correlated_open_risk s a in
    record {
      configured_risk_amount = rounded risk_amount;
      daily_loss_limit = rounded (percent_of a.balance c.max_daily_loss_percent);
      weekly_loss_limit = rounded (percent_of a.balance c.max_weekly_loss_percent);
      open_risk_limit = rounded (percent_of a.balance c.max_open_risk_percent);
      correlated_risk_limit = rounded (percent_of a.balance c.max_correlated_risk_percent);
      open_positions_in_group = correlated_position_count s a;
      current_correlated_risk = rounded correlated_risk;
      projected_correlated_risk = rounded (correlated_risk +ℚ risk_amount);
    }

-- What stands at a point of the validation: the inputs, and what has been computed.
pub record Progress : Type 0 where
  pub signal : Signal
  pub account : AccountState
  pub config : RiskConfig
  pub rr : Option ℚ
  pub was_capped : Bool
  pub adjusted : Option Prices
  pub sizing : Option SizingResult

abbrev pub start : Signal → AccountState → RiskConfig → Progress
start s a c = record {
  signal = s;
  account = a;
  config = c;
  rr = none;
  was_capped = false;
  adjusted = none;
  sizing = none;
}

unfoldable pub decision :
    Progress → RiskDecisionStatus → Bool → Option RiskReason → ℚ → ℚ → RiskDecision
unfolding report_of round_ℚ
decision p status is_approved reason size loss = record {
  signal = p.signal;
  account = p.account;
  config = p.config;
  status = status;
  is_approved = is_approved;
  rejection_reason = reason;
  position_size = reported size;
  max_loss = reported loss;
  rr = rounded? p.rr;
  was_capped = p.was_capped;
  adjusted = rounded_prices p.adjusted;
  sizing = p.sizing;
  report = report_of p.signal p.account p.config;
}

abbrev pub reject : Progress → RiskReason → RiskDecisionStatus → RiskDecision
reject p reason status = decision p status false (some reason) zero_ℚ zero_ℚ
