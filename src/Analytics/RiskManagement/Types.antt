-- ===== src/Analytics/RiskManagement/Types.antt =====
-- src/analytics/ict_smc/risk_management.py: its inputs, as they are read and as they are parsed. A
-- number that is missing, None or unreadable is `none`; a text is a number, the empty one 0. The raw
-- mapping and the timestamp, which no check reads, are left out.
use apex_xauusd_engine.Prelude.{ℕ, Bool, true, false, Option, List, or_else}
use apex_xauusd_engine.Prelude.Int.{pos_part}
use apex_xauusd_engine.Prelude.Rat.{ℚ, lit, zero_ℚ, max_ℚ, eqb_ℚ, floor_ℚ}
use apex_xauusd_engine.Prelude.{if◌then◌else◌}

pub data RiskDirection : Type 0 where
  long short no_direction : RiskDirection

-- The texts, without spaces and case.
pub data DirectionWord : Type 0 where
  long_word buy_word bullish bull buy_side : DirectionWord
  short_word sell_word bearish bear sell_side : DirectionWord
  other_word : DirectionWord

abbrev pub direction_of : DirectionWord → RiskDirection
direction_of long_word = long
direction_of buy_word = long
direction_of bullish = long
direction_of bull = long
direction_of buy_side = long
direction_of short_word = short
direction_of sell_word = short
direction_of bearish = short
direction_of bear = short
direction_of sell_side = short
direction_of other_word = no_direction

-- `x or default` on a number, where 0 counts as missing
abbrev pub nonzero_or : ℚ → ℚ → ℚ
nonzero_or x default = if eqb_ℚ x zero_ℚ then default else x

-- `max(0.0, _float(x, default) or 0.0)`
abbrev pub at_least_zero : Option ℚ → ℚ → ℚ
at_least_zero x default = max_ℚ zero_ℚ (or_else x default)

-- `max(0, int(_float(x, default) or default))`
abbrev pub count_of : Option ℚ → ℚ → ℕ
count_of x default = pos_part (floor_ℚ (nonzero_or (or_else x default) default))

abbrev pub empty_text : ℕ
empty_text = 0

abbrev pub xauusd : ℕ
xauusd = 1

abbrev pub xauusd_group : ℕ
xauusd_group = 2

abbrev pub unknown_signal : ℕ
unknown_signal = 3

pub record RawSignal : Type 0 where
  pub raw_id : Option ℕ
  pub raw_symbol : Option ℕ
  pub raw_direction : DirectionWord
  pub raw_entry : Option ℚ
  pub raw_stop : Option ℚ
  pub raw_target : Option ℚ
  pub raw_score : Option ℚ
  pub raw_group : Option ℕ
  pub raw_stop_valid : Option Bool

pub record Signal : Type 0 where
  pub signal_id : ℕ
  pub symbol : ℕ
  pub direction : RiskDirection
  pub entry : Option ℚ
  pub stop : Option ℚ
  pub target : Option ℚ
  pub score : ℚ
  pub correlation_group : ℕ
  pub stop_valid : Bool

unfoldable pub read_signal : RawSignal → Signal
read_signal raw = record {
  signal_id = or_else raw.raw_id unknown_signal;
  symbol = or_else raw.raw_symbol xauusd;
  direction = direction_of raw.raw_direction;
  entry = raw.raw_entry;
  stop = raw.raw_stop;
  target = raw.raw_target;
  score = or_else raw.raw_score zero_ℚ;
  correlation_group = or_else raw.raw_group xauusd_group;
  stop_valid = or_else raw.raw_stop_valid true;
}

-- A mapping of `open_positions`, with the texts for those that are missing.
pub record OpenPosition : Type 0 where
  pub symbol : ℕ
  pub correlation_group : ℕ
  pub open_risk : Option ℚ

pub record RawAccount : Type 0 where
  pub raw_balance : Option ℚ
  pub raw_equity : Option ℚ
  pub raw_daily_pnl : Option ℚ
  pub raw_weekly_pnl : Option ℚ
  pub raw_open_risk : Option ℚ
  pub raw_spread : Option ℚ
  pub raw_average_spread : Option ℚ
  pub raw_positions : List OpenPosition
  pub raw_locked : Option Bool
  pub raw_news : Option Bool

pub record AccountState : Type 0 where
  pub balance : ℚ
  pub equity : ℚ
  pub daily_realized_pnl : ℚ
  pub weekly_realized_pnl : ℚ
  pub current_open_risk : ℚ
  pub current_spread : ℚ
  pub average_spread : ℚ
  pub open_positions : List OpenPosition
  pub trading_locked : Bool
  pub news_restricted : Bool

unfoldable pub read_account : RawAccount → AccountState
read_account raw =
    let funds = or_else raw.raw_balance zero_ℚ in
    record {
      balance = funds;
      equity = nonzero_or (or_else raw.raw_equity funds) funds;
      daily_realized_pnl = or_else raw.raw_daily_pnl zero_ℚ;
      weekly_realized_pnl = or_else raw.raw_weekly_pnl zero_ℚ;
      current_open_risk = or_else raw.raw_open_risk zero_ℚ;
      current_spread = at_least_zero raw.raw_spread zero_ℚ;
      average_spread = at_least_zero raw.raw_average_spread zero_ℚ;
      open_positions = raw.raw_positions;
      trading_locked = or_else raw.raw_locked false;
      news_restricted = or_else raw.raw_news false;
    }

pub record RawConfig : Type 0 where
  pub raw_risk_percent : Option ℚ
  pub raw_pip_value : Option ℚ
  pub raw_min_rr : Option ℚ
  pub raw_min_size : Option ℚ
  pub raw_max_size : Option ℚ
  pub raw_lot_step : Option ℚ
  pub raw_daily_loss : Option ℚ
  pub raw_weekly_loss : Option ℚ
  pub raw_total_risk : Option ℚ
  pub raw_correlated_risk : Option ℚ
  pub raw_max_spread : Option ℚ
  pub raw_multiplier : Option ℚ
  pub raw_slippage : Option ℚ
  pub raw_min_stop : Option ℚ
  pub raw_cap : Option Bool
  pub raw_max_positions : Option ℚ
  pub raw_max_per_symbol : Option ℚ

pub record RiskConfig : Type 0 where
  pub risk_percent : ℚ
  pub pip_value : ℚ
  pub min_rr : ℚ
  pub min_position_size : ℚ
  pub max_position_size : Option ℚ
  pub lot_step : ℚ
  pub max_daily_loss_percent : ℚ
  pub max_weekly_loss_percent : ℚ
  pub max_open_risk_percent : ℚ
  pub max_correlated_risk_percent : ℚ
  pub max_spread : ℚ
  pub abnormal_spread_multiplier : ℚ
  pub slippage_buffer : ℚ
  pub min_stop_distance : ℚ
  pub allow_position_size_cap : Bool
  pub max_positions : ℕ
  pub max_positions_per_symbol : ℕ

unfoldable pub read_config : RawConfig → RiskConfig
unfolding floor_ℚ
read_config raw = record {
  risk_percent = at_least_zero raw.raw_risk_percent (lit 5 1);
  pip_value = at_least_zero raw.raw_pip_value zero_ℚ;
  min_rr = at_least_zero raw.raw_min_rr (lit 15 1);
  min_position_size = at_least_zero raw.raw_min_size (lit 1 2);
  max_position_size = raw.raw_max_size;
  lot_step = at_least_zero raw.raw_lot_step (lit 1 2);
  max_daily_loss_percent = at_least_zero raw.raw_daily_loss (lit 3 0);
  max_weekly_loss_percent = at_least_zero raw.raw_weekly_loss (lit 6 0);
  max_open_risk_percent = at_least_zero raw.raw_total_risk (lit 3 0);
  max_correlated_risk_percent = at_least_zero raw.raw_correlated_risk (lit 2 0);
  max_spread = at_least_zero raw.raw_max_spread (lit 8 1);
  abnormal_spread_multiplier = at_least_zero raw.raw_multiplier (lit 3 0);
  slippage_buffer = at_least_zero raw.raw_slippage zero_ℚ;
  min_stop_distance = at_least_zero raw.raw_min_stop zero_ℚ;
  allow_position_size_cap = or_else raw.raw_cap true;
  max_positions = count_of raw.raw_max_positions (lit 10 0);
  max_positions_per_symbol = count_of raw.raw_max_per_symbol (lit 3 0);
}

-- The inputs of `calculate_position_size`.
pub data SizingInput : Type 0 where
  account_balance_input risk_percent_input entry_input stop_input pip_value_input : SizingInput

pub data RiskReason : Type 0 where
  missing : List SizingInput → RiskReason
  invalid_account_balance invalid_risk_percent invalid_pip_value invalid_stop_distance : RiskReason
  invalid_risk_per_unit invalid_direction missing_entry_stop_or_target : RiskReason
  stop_marked_invalid invalid_account_state account_protection_locked : RiskReason
  news_window spread_too_high spread_abnormally_high stop_too_tight : RiskReason
  invalid_long_stop invalid_short_stop invalid_reward_to_risk : RiskReason
  reward_to_risk_below_minimum max_daily_loss_reached max_weekly_loss_reached : RiskReason
  projected_daily_loss_limit_exceeded projected_weekly_loss_limit_exceeded : RiskReason
  max_open_risk_exceeded correlated_exposure_too_high max_open_positions_reached : RiskReason
  max_symbol_positions_reached position_size_above_configured_max : RiskReason
  position_size_below_broker_minimum normalized_size_exceeds_risk_limit : RiskReason
