-- ===== src/Analytics/Swings/Types.antt =====
-- The enumerations, the configuration and the records of src/analytics/ict_smc/swing_points.py. The
-- texts of reasons and warnings are constructors, with the numbers that the code formats into them.
use apex_xauusd_engine.Prelude.{ℕ, Bool, ◌||◌, Option, List, ltb, if◌then◌else◌}
use apex_xauusd_engine.Prelude.Int.{ℤ, pos, ltb_ℤ}
use apex_xauusd_engine.Prelude.Rat.{ℚ, ltb_ℚ, leb_ℚ, zero_ℚ, ◌-ℚ◌, ◌/ℚ◌, max_ℚ, abs_ℚ, neg_ℚ}
use apex_xauusd_engine.Errors.{Result, ok, value_error, raise_if, ◌>>◌}
use apex_xauusd_engine.Domain.{Timeframe}

pub data SwingPointType : Type 0 where
  swing_high swing_low : SwingPointType

pub data SwingStrengthLabel : Type 0 where
  weak minor moderate strong major : SwingStrengthLabel

pub data SwingLiquidityType : Type 0 where
  buy_side sell_side : SwingLiquidityType

pub data SwingPointStatus : Type 0 where
  unswept swept broken mitigated target_hit : SwingPointStatus

pub record SwingDetectionConfig : Type 0 where
  pub left_bars : ℕ
  pub right_bars : ℕ
  pub atr_period : ℕ
  pub min_atr_reaction : ℚ
  pub strong_atr_reaction : ℚ
  pub min_candle_gap : ℤ
  pub min_price_distance_atr : ℚ
  pub equal_level_tolerance_atr : ℚ
  pub news_range_atr : ℚ
  pub volume_confirmation_multiplier : ℚ
  pub use_volume_filter : Bool
  pub require_min_atr_reaction : Bool
  pub timeframe : Option Timeframe

-- `__post_init__`
unfoldable pub checked_config : SwingDetectionConfig → Result SwingDetectionConfig
unfolding ltb_ℚ
checked_config c = do
  raise_if (ltb c.left_bars 1 || ltb c.right_bars 1) value_error
  raise_if (ltb c.atr_period 1) value_error
  raise_if (ltb_ℤ c.min_candle_gap (pos 0)) value_error
  raise_if (ltb_ℚ c.min_atr_reaction zero_ℚ || ltb_ℚ c.strong_atr_reaction zero_ℚ) value_error
  ok c

-- The purposes of `used_for`.
pub data SwingUse : Type 0 where
  liquidity bos_reference mss_reference stop_loss_reference target range_boundary : SwingUse

pub data SwingReason : Type 0 where
  confirmed_with_candles : ℕ → ℕ → SwingReason
  confirmed_after_right_side_closed creates_objective_liquidity_reference : SwingReason
  price_reacted : ℚ → SwingReason
  formed_during_active_session volume_above_recent_average : SwingReason
  has_higher_timeframe_context has_premium_discount_context : SwingReason
  marks_buy_side_liquidity marks_sell_side_liquidity : SwingReason
  clean_distance_from_previous : ℚ → SwingReason

pub data SwingWarning : Type 0 where
  reaction_below_preferred_threshold outside_preferred_session : SwingWarning
  volume_below_preferred_threshold may_be_internal_chop possible_news_spike : SwingWarning
  very_close_to_previous_opposite_swing below_minimum_distance : SwingWarning

pub record DetectedSwingPoint : Type 0 where
  pub index : ℤ
  pub timestamp : ℕ
  pub confirmation_index : ℤ
  pub confirmation_timestamp : ℕ
  pub price : ℚ
  pub point_type : SwingPointType
  pub strength_score : ℚ
  pub strength_label : SwingStrengthLabel
  pub timeframe : Timeframe
  pub timeframe_weight : ℚ
  pub liquidity_type : SwingLiquidityType
  pub status : SwingPointStatus
  pub used_for : List SwingUse
  pub atr_reaction : ℚ
  pub distance_from_previous_swing : Option ℚ
  pub reasons : List SwingReason
  pub warnings : List SwingWarning

-- A session's name counts by the words in it: one of `london`, `newyork` and `overlap`, else one of
-- `asian` and `asia`, or none of these.
pub data SessionName : Type 0 where
  western asian unrelated : ℕ → SessionName

-- `_OhlcvCandle`
pub record OhlcvCandle : Type 0 where
  pub index : ℤ
  pub timestamp : ℕ
  pub open_p : ℚ
  pub high_p : ℚ
  pub low_p : ℚ
  pub close_p : ℚ
  pub volume : ℚ
  pub timeframe : Timeframe
  pub is_closed : Bool
  pub session_name : Option SessionName
  pub htf_context : Option ℕ
  pub premium_discount_zone : Option ℕ

-- `range`
unfoldable pub candle_range : OhlcvCandle → ℚ
unfolding ltb_ℚ ◌-ℚ◌
candle_range c = max_ℚ zero_ℚ (c.high_p -ℚ c.low_p)

unfoldable pub body : OhlcvCandle → ℚ
unfolding ltb_ℚ ◌-ℚ◌ neg_ℚ
body c = abs_ℚ (c.close_p -ℚ c.open_p)

unfoldable pub body_to_range_ratio : OhlcvCandle → ℚ
unfolding candle_range body ◌/ℚ◌
body_to_range_ratio c = if leb_ℚ (candle_range c) zero_ℚ then zero_ℚ else body c /ℚ candle_range c
