-- ===== src/Analytics/Swings/Filter.antt =====
-- `_filter_and_rescore`, `detect` and `detect_swings`.
use apex_xauusd_engine.Prelude.{
  ℕ, ◌+◌, ◌-◌, Bool, true, false, not, ◌&&◌, ◌||◌, Option, none, some, List, [], ◌∷◌, ◌++◌, length,
  keep, get_elem?, ltb, leb, if◌then◌else◌,
}
use mathlib.Core.List.{reverse}
use apex_xauusd_engine.Prelude.Int.{ℤ, pos, pos_part, ltb_ℤ, leb_ℤ, ◌-ℤ◌}
use apex_xauusd_engine.Prelude.Rat.{
  ℚ, ltb_ℚ, leb_ℚ, zero_ℚ, lit, ◌+ℚ◌, ◌-ℚ◌, ◌/ℚ◌, max_ℚ, abs_ℚ, round_ℚ,
}
use apex_xauusd_engine.Errors.{Result, ok, ◌>>=◌}
use apex_xauusd_engine.Domain.{Timeframe}
use apex_xauusd_engine.Analytics.Swings.Types.{
  SwingPointType, swing_high, swing_low, SwingDetectionConfig, DetectedSwingPoint, OhlcvCandle,
  clean_distance_from_previous, very_close_to_previous_opposite_swing, below_minimum_distance,
  checked_config,
}
use apex_xauusd_engine.Analytics.Swings.Normalize.{CandleInput, normalize_candles, either}
use apex_xauusd_engine.Analytics.Swings.Atr.{calculate_atr, tiny}
use apex_xauusd_engine.Analytics.Swings.Scores.{clamp, strength_label, only_if}
use apex_xauusd_engine.Analytics.Swings.Detect.{collect_raw_swings}

abbrev pub same_point_type : SwingPointType → SwingPointType → Bool
same_point_type swing_high swing_high = true
same_point_type swing_low swing_low = true
same_point_type _ _ = false

abbrev pub is_more_extreme : SwingPointType → ℚ → ℚ → Bool
is_more_extreme swing_high right left = ltb_ℚ left right
is_more_extreme swing_low right left = ltb_ℚ right left

unfoldable pub prefer_more_extreme : DetectedSwingPoint → DetectedSwingPoint → DetectedSwingPoint
prefer_more_extreme left right =
    if is_more_extreme left.point_type right.price left.price then right else left

unfoldable pub prefer_stronger : DetectedSwingPoint → DetectedSwingPoint → DetectedSwingPoint
prefer_stronger left right = if ltb_ℚ left.strength_score right.strength_score then right else left

-- `atr_values[min(max(index, 0), len(atr_values) - 1)]`, the values not empty
unfoldable pub atr_at : List ℚ → ℤ → ℚ
atr_at atr_values index =
    let last = length atr_values - 1 in
    let i = if leb (pos_part index) last then pos_part index else last in
    elim (get_elem? atr_values i) [ some value ↦ value | none ↦ zero_ℚ ]

abbrev pub distance_bonus : ℚ → ℚ
distance_bonus distance_atr =
    if leb_ℚ (lit 1 0) distance_atr
    then lit 1 0
    else if leb_ℚ (lit 25 2) distance_atr
    then lit 5 1
    else zero_ℚ

-- `bonus`, a number that is positive or 0, as a test
abbrev pub has_bonus : ℚ → Bool
has_bonus distance_atr = leb_ℚ (lit 1 0) distance_atr || leb_ℚ (lit 25 2) distance_atr

unfoldable pub with_distance_score :
    DetectedSwingPoint → ℚ → List ℚ → SwingDetectionConfig → DetectedSwingPoint
with_distance_score swing distance atr_values c =
    let distance_atr = distance /ℚ max_ℚ (atr_at atr_values swing.confirmation_index) tiny in
    let score =
      round_ℚ (clamp (swing.strength_score +ℚ distance_bonus distance_atr) zero_ℚ (lit 10 0)) 2 in
    record swing {
      strength_score = score;
      strength_label = strength_label score;
      distance_from_previous_swing = some (round_ℚ distance 5);
      reasons =
          swing.reasons
          ++ only_if (has_bonus distance_atr) (clean_distance_from_previous distance_atr);
      warnings =
          swing.warnings
          ++ only_if (not (has_bonus distance_atr)) very_close_to_previous_opposite_swing
          ++ only_if (ltb_ℚ distance_atr c.min_price_distance_atr) below_minimum_distance;
    }

-- `(confirmation_index, index)` of one swing before that of another
abbrev pub comes_before : DetectedSwingPoint → DetectedSwingPoint → Bool
comes_before a b =
    ltb_ℤ a.confirmation_index b.confirmation_index
    || leb_ℤ a.confirmation_index b.confirmation_index && ltb_ℤ a.index b.index

-- `sorted(raw_swings, key=...)`, which keeps the order of equal keys
unfoldable pub insert_sorted :
    DetectedSwingPoint → List DetectedSwingPoint → List DetectedSwingPoint
insert_sorted s [] = s ∷ []
insert_sorted s (t ∷ ts) = if comes_before t s then t ∷ insert_sorted s ts else s ∷ t ∷ ts

unfoldable pub sorted_swings : List DetectedSwingPoint → List DetectedSwingPoint
sorted_swings [] = []
sorted_swings (s ∷ ss) = insert_sorted s (sorted_swings ss)

-- The body of the loop. The accepted swings stand in reverse, the last one first.
unfoldable pub accept :
    SwingDetectionConfig
    → List ℚ
    → List DetectedSwingPoint
    → DetectedSwingPoint
    → List DetectedSwingPoint
accept c atr_values [] swing =
    if c.require_min_atr_reaction && ltb_ℚ swing.atr_reaction c.min_atr_reaction
    then []
    else swing ∷ []
accept c atr_values (last ∷ earlier) swing =
    if c.require_min_atr_reaction && ltb_ℚ swing.atr_reaction c.min_atr_reaction
    then last ∷ earlier
    else if ltb_ℤ (swing.index -ℤ last.index) c.min_candle_gap
    then (if same_point_type swing.point_type last.point_type
        then prefer_more_extreme last swing
        else prefer_stronger last swing)
      ∷ earlier
    else if same_point_type swing.point_type last.point_type
    then prefer_more_extreme last swing ∷ earlier
    else with_distance_score swing (abs_ℚ (swing.price -ℚ last.price)) atr_values c ∷ last ∷ earlier

unfoldable pub accept_all :
    SwingDetectionConfig
    → List ℚ
    → List DetectedSwingPoint
    → List DetectedSwingPoint
    → List DetectedSwingPoint
accept_all c atr_values accepted [] = accepted
accept_all c atr_values accepted (swing ∷ swings) =
    accept_all c atr_values (accept c atr_values accepted swing) swings

unfoldable pub filter_and_rescore :
    SwingDetectionConfig → List DetectedSwingPoint → List ℚ → List DetectedSwingPoint
filter_and_rescore c raw_swings atr_values =
    reverse (accept_all c atr_values [] (sorted_swings raw_swings))

-- `detect` after the candles are normalized
unfoldable pub detect_closed : SwingDetectionConfig → List OhlcvCandle → List DetectedSwingPoint
detect_closed c closed =
    let atr_values = calculate_atr c.atr_period closed in
    if ltb (length closed) (c.left_bars + c.right_bars + 1)
    then []
    else filter_and_rescore c (collect_raw_swings c closed atr_values) atr_values

unfoldable pub closed_candles : List OhlcvCandle → List OhlcvCandle
closed_candles = keep (λ (o : OhlcvCandle). o.is_closed)

unfoldable pub detect :
    SwingDetectionConfig → Option Timeframe → List CandleInput → Result (List DetectedSwingPoint)
detect c timeframe candles = do
  normalized ← normalize_candles timeframe c.timeframe 0 candles
  ok (detect_closed c (closed_candles normalized))

-- The configuration that `detect_swings` builds, from the default one if none is given.
unfoldable pub base_config :
    SwingDetectionConfig
    → ℕ
    → ℕ
    → Option Timeframe
    → Option SwingDetectionConfig
    → SwingDetectionConfig
base_config defaults left_bars right_bars timeframe none = record defaults {
  left_bars = left_bars;
  right_bars = right_bars;
  timeframe = timeframe;
}
base_config defaults left_bars right_bars timeframe (some c) = record c {
  left_bars = left_bars;
  right_bars = right_bars;
  timeframe = either timeframe c.timeframe;
}

abbrev pub default_config : SwingDetectionConfig
default_config = record {
  left_bars = 3;
  right_bars = 3;
  atr_period = 14;
  min_atr_reaction = lit 5 1;
  strong_atr_reaction = lit 15 1;
  min_candle_gap = pos 3;
  min_price_distance_atr = lit 25 2;
  equal_level_tolerance_atr = lit 10 2;
  news_range_atr = lit 3 0;
  volume_confirmation_multiplier = lit 11 1;
  use_volume_filter = false;
  require_min_atr_reaction = false;
  timeframe = none;
}

unfoldable pub detect_swings :
    List CandleInput
    → ℕ
    → ℕ
    → Option Timeframe
    → Option SwingDetectionConfig
    → Result (List DetectedSwingPoint)
unfolding base_config checked_config detect
detect_swings candles left_bars right_bars timeframe config = do
  c ← checked_config (base_config default_config left_bars right_bars timeframe config)
  detect c timeframe candles
