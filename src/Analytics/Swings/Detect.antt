-- ===== src/Analytics/Swings/Detect.antt =====
-- `ICTSwingPointDetector` and `detect_swings`.
use apex_xauusd_engine.Prelude.{
  ℕ, zero, suc, ◌+◌, ◌-◌, Bool, true, false, not, ◌&&◌, ◌||◌, Option, none, some, List, [], ◌∷◌,
  ◌++◌, map, length, slice, get_elem?, if◌then◌else◌,
}
use apex_xauusd_engine.Prelude.Rat.{
  ℚ, ltb_ℚ, leb_ℚ, zero_ℚ, ◌-ℚ◌, ◌*ℚ◌, ◌/ℚ◌, max_ℚ, min_ℚ, abs_ℚ, round_ℚ,
}
use apex_xauusd_engine.Analytics.Swings.Types.{
  SwingPointType, swing_high, swing_low, SwingLiquidityType, buy_side, sell_side, unswept,
  SwingDetectionConfig, DetectedSwingPoint, OhlcvCandle,
}
use apex_xauusd_engine.Analytics.Swings.Atr.{tiny}
use apex_xauusd_engine.Analytics.Swings.Scores.{
  raw_score, raw_reasons, raw_warnings, strength_label, timeframe_weight, used_for, only_if,
}

-- `all(test(other) for other in window)`, and `any`
unfoldable pub all_of : (OhlcvCandle → Bool) → List OhlcvCandle → Bool
all_of test [] = true
all_of test (c ∷ cs) = test c && all_of test cs

unfoldable pub any_of : (OhlcvCandle → Bool) → List OhlcvCandle → Bool
any_of test [] = false
any_of test (c ∷ cs) = test c || any_of test cs

abbrev pub highs : List OhlcvCandle → List ℚ
highs = map (λ (c : OhlcvCandle). c.high_p)

abbrev pub lows : List OhlcvCandle → List ℚ
lows = map (λ (c : OhlcvCandle). c.low_p)

-- `max(values)` and `min(values)`, from the first value
unfoldable pub max_from : ℚ → List ℚ → ℚ
unfolding ltb_ℚ
max_from m [] = m
max_from m (x ∷ xs) = max_from (max_ℚ m x) xs

unfoldable pub min_from : ℚ → List ℚ → ℚ
unfolding ltb_ℚ
min_from m [] = m
min_from m (x ∷ xs) = min_from (min_ℚ m x) xs

unfoldable pub has_equal_high_or_low :
    SwingDetectionConfig → OhlcvCandle → List OhlcvCandle → ℚ → Bool
has_equal_high_or_low c current window atr =
    let tolerance = max_ℚ (atr *ℚ c.equal_level_tolerance_atr) tiny in
    any_of (λ other. leb_ℚ (abs_ℚ (current.high_p -ℚ other.high_p)) tolerance) window
    || any_of (λ other. leb_ℚ (abs_ℚ (current.low_p -ℚ other.low_p)) tolerance) window

-- `_reaction_after_swing` on the candles of the lookahead
unfoldable pub reaction_after_swing : OhlcvCandle → List OhlcvCandle → SwingPointType → ℚ
reaction_after_swing current [] swing_type = zero_ℚ
reaction_after_swing current (o ∷ os) swing_high =
    max_ℚ zero_ℚ (current.high_p -ℚ min_from o.low_p (lows os))
reaction_after_swing current (o ∷ os) swing_low =
    max_ℚ zero_ℚ (max_from o.high_p (highs os) -ℚ current.low_p)

abbrev pub price_of : SwingPointType → OhlcvCandle → ℚ
price_of swing_high c = c.high_p
price_of swing_low c = c.low_p

abbrev pub liquidity_type_of : SwingPointType → SwingLiquidityType
liquidity_type_of swing_high = buy_side
liquidity_type_of swing_low = sell_side

-- The candles at the position and at its confirmation are arguments, and so is the average true
-- range at the position.
unfoldable pub build_swing :
    SwingDetectionConfig
    → List OhlcvCandle
    → ℕ
    → OhlcvCandle
    → OhlcvCandle
    → ℚ
    → SwingPointType
    → DetectedSwingPoint
build_swing c candles position current confirming atr_value swing_type =
    let lookahead = slice (position + 1) (position + c.right_bars + 1) candles in
    let reaction_atr = reaction_after_swing current lookahead swing_type /ℚ max_ℚ atr_value tiny in
    let score = raw_score c candles atr_value position current reaction_atr in
    record {
      index = current.index;
      timestamp = current.timestamp;
      confirmation_index = confirming.index;
      confirmation_timestamp = confirming.timestamp;
      price = price_of swing_type current;
      point_type = swing_type;
      strength_score = score;
      strength_label = strength_label score;
      timeframe = current.timeframe;
      timeframe_weight = timeframe_weight current.timeframe;
      liquidity_type = liquidity_type_of swing_type;
      status = unswept;
      used_for = used_for swing_type;
      atr_reaction = round_ℚ reaction_atr 4;
      distance_from_previous_swing = none;
      reasons = raw_reasons c candles position current swing_type reaction_atr;
      warnings = raw_warnings c candles atr_value position current reaction_atr;
    }

-- `left_window + right_window`
abbrev pub neighbours : SwingDetectionConfig → List OhlcvCandle → ℕ → List OhlcvCandle
neighbours c candles position =
    slice (position - c.left_bars) position candles
    ++ slice (position + 1) (position + c.right_bars + 1) candles

unfoldable pub is_high : OhlcvCandle → List OhlcvCandle → Bool
is_high current window = all_of (λ other. ltb_ℚ other.high_p current.high_p) window

unfoldable pub is_low : OhlcvCandle → List OhlcvCandle → Bool
is_low current window = all_of (λ other. ltb_ℚ current.low_p other.low_p) window

-- The body of the loop of `_collect_raw_swings`, on what stands at the position, at its confirmation
-- and in the list of average true ranges there. The loop's positions are within the candles.
unfoldable pub swings_with :
    SwingDetectionConfig
    → List OhlcvCandle
    → ℕ
    → Option OhlcvCandle
    → Option OhlcvCandle
    → Option ℚ
    → List DetectedSwingPoint
swings_with c candles position (some current) (some confirming) (some atr_value) =
    let window = neighbours c candles position in
    let built = build_swing c candles position current confirming atr_value in
    if not (is_high current window)
      && not (is_low current window)
      && has_equal_high_or_low c current window atr_value
    then []
    else only_if (is_high current window) (built swing_high)
      ++ only_if (is_low current window) (built swing_low)
swings_with c candles position _ _ _ = []

unfoldable pub swings_at :
    SwingDetectionConfig → List OhlcvCandle → List ℚ → ℕ → List DetectedSwingPoint
swings_at c candles atr_values position =
    swings_with c candles position (get_elem? candles position)
      (get_elem? candles (position + c.right_bars)) (get_elem? atr_values position)

-- The loop over `count` positions.
unfoldable pub swings_from :
    SwingDetectionConfig → List OhlcvCandle → List ℚ → ℕ → ℕ → List DetectedSwingPoint
swings_from c candles atr_values position zero = []
swings_from c candles atr_values position (suc count) =
    swings_at c candles atr_values position ++ swings_from c candles atr_values (suc position) count

unfoldable pub collect_raw_swings :
    SwingDetectionConfig → List OhlcvCandle → List ℚ → List DetectedSwingPoint
collect_raw_swings c candles atr_values =
    swings_from c candles atr_values c.left_bars (length candles - c.right_bars - c.left_bars)
