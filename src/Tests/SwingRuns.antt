-- ===== src/Tests/SwingRuns.antt =====
-- The theorems on swing points at concrete inputs.
use apex_xauusd_engine.Prelude.{ℕ, ◌≡◌, refl, none, List, [], ◌∷◌, ◌++◌, map, arith, All}
use apex_xauusd_engine.Prelude.Int.{pos}
use apex_xauusd_engine.Prelude.Rat.{ℚ, lit, round_ℚ}
use apex_xauusd_engine.Errors.{ok}
use apex_xauusd_engine.Domain.{CandleNode}
use apex_xauusd_engine.Analytics.Swings.Types.{
  SwingDetectionConfig, DetectedSwingPoint, OhlcvCandle, body_to_range_ratio,
}
use apex_xauusd_engine.Analytics.Swings.Normalize.{node, normalize_node, normalize_candles}
use apex_xauusd_engine.Analytics.Swings.Filter.{
  prefer_more_extreme, prefer_stronger, with_distance_score, atr_at, accept_all, accept,
  sorted_swings, insert_sorted, filter_and_rescore, default_config, detect_closed, closed_candles,
  detect,
}
use apex_xauusd_engine.Analytics.Swings.Atr.{calculate_atr, mean}
use apex_xauusd_engine.Analytics.Swings.Scores.{
  raw_score, raw_reasons, raw_warnings, reaction_score, session_score, volume_score, chop_penalty,
  clamp, strength_label, timeframe_weight,
}
use apex_xauusd_engine.Analytics.Swings.Detect.{
  collect_raw_swings, swings_from, swings_at, swings_with, is_high, is_low, all_of, any_of,
  has_equal_high_or_low, build_swing, reaction_after_swing, min_from, max_from,
}
use apex_xauusd_engine.Analytics.Swings.Pivots.{Confirmed}
use apex_xauusd_engine.Analytics.Swings.Extremes.{detect-Confirmed}
use apex_xauusd_engine.Analytics.Swings.Confirmation.{raw_swings}
use apex_xauusd_engine.Analytics.Swings.Settled.{Keeps, detect_closed-Keeps}
use apex_xauusd_engine.Tests.Data.{candle_to}

-- A candle of a given number between a low and a high.
abbrev between : ℕ → ℕ → ℕ → CandleNode
between n low high = record (candle_to (lit high 0)) {
  end_time = n;
  open_p = lit low 0;
  high_p = lit high 0;
  low_p = lit low 0;
  sequence_id = n;
}

abbrev narrow : SwingDetectionConfig
narrow = record default_config { left_bars = 1; right_bars = 2; atr_period = 2 }

abbrev peak : List CandleNode
peak = between 1 2000 2010 ∷ between 2 2005 2030 ∷ between 3 2004 2015 ∷ between 4 2001 2012 ∷ []

abbrev read : CandleNode → OhlcvCandle
read = normalize_node none none 0

detect-peak : detect narrow none (map node peak) ≡ ok (detect_closed narrow (map read peak))
unfolding detect normalize_candles normalize_node closed_candles
detect-peak = refl

detect-Confirmed_example :
    (normalized : List OhlcvCandle) × (normalize_candles none none 0 (map node peak)
      ≡ ok normalized)
    × All (Confirmed narrow (closed_candles normalized)) (detect_closed narrow (map read peak))
detect-Confirmed_example =
    detect-Confirmed narrow none (map node peak) (detect_closed narrow (map read peak)) detect-peak

-- The peak is the only swing.
peak_found :
    map (λ (s : DetectedSwingPoint). s.index) (detect_closed narrow (map read peak)) ≡ pos 2 ∷ []
unfolding detect_closed calculate_atr collect_raw_swings filter_and_rescore accept_all accept
    sorted_swings insert_sorted swings_from swings_at swings_with is_high is_low all_of
    has_equal_high_or_low any_of build_swing reaction_after_swing raw_score raw_reasons raw_warnings
    reaction_score session_score volume_score chop_penalty clamp round_ℚ strength_label mean
    timeframe_weight normalize_node
peak_found = refl

-- A peak, and four more candles with a higher one, numbered from 0.
abbrev first_peak : List CandleNode
first_peak =
    between 0 2000 2010 ∷ between 1 2005 2030 ∷ between 2 2003 2015 ∷ between 3 2002 2014 ∷ []

abbrev higher_peak : List CandleNode
higher_peak =
    between 4 2006 2020 ∷ between 5 2010 2050 ∷ between 6 2007 2016 ∷ between 7 2004 2015 ∷ []

detect_closed-Keeps_example :
    Keeps
      (detect_closed narrow (map read first_peak))
      (detect_closed narrow (map read first_peak ++ map read higher_peak))
unfolding normalize_node
detect_closed-Keeps_example =
    detect_closed-Keeps narrow (map read first_peak) (map read higher_peak) (omega arith)
      (refl, (refl, (refl, (refl, (refl, (refl, (refl, (refl, tt))))))))

-- The last swing is replaced.
last_replaced :
    map
      (λ candles.
        map (λ (s : DetectedSwingPoint). s.index) (detect_closed narrow (map read candles)))
      (first_peak ∷ (first_peak ++ higher_peak) ∷ [])
    ≡ (pos 1 ∷ []) ∷ (pos 5 ∷ []) ∷ []
unfolding detect_closed calculate_atr collect_raw_swings filter_and_rescore accept_all accept
    sorted_swings insert_sorted swings_from swings_at swings_with is_high is_low all_of
    has_equal_high_or_low any_of build_swing reaction_after_swing min_from max_from raw_score
    raw_reasons raw_warnings reaction_score session_score volume_score chop_penalty clamp round_ℚ
    strength_label mean timeframe_weight normalize_node prefer_more_extreme prefer_stronger
    with_distance_score atr_at body_to_range_ratio
last_replaced = refl

abbrev one_bar : SwingDetectionConfig
one_bar = record default_config { left_bars = 1; right_bars = 1; atr_period = 2 }

abbrev quiet_peak : List CandleNode
quiet_peak = between 1 2000 2010 ∷ between 2 2005 2030 ∷ between 3 2014 2015 ∷ []

abbrev scores : List CandleNode → List ℚ
scores candles =
    map (λ (s : DetectedSwingPoint). s.strength_score) (raw_swings one_bar (map read candles))

-- With one candle to the right, the score of the same peak falls when one more candle closes.
one_bar_repaints :
    map scores (quiet_peak ∷ (quiet_peak ++ between 4 2014 2015 ∷ []) ∷ [])
    ≡ (lit 475 2 ∷ []) ∷ (lit 425 2 ∷ []) ∷ []
unfolding calculate_atr collect_raw_swings swings_from swings_at swings_with is_high is_low all_of
    has_equal_high_or_low any_of build_swing reaction_after_swing min_from raw_score raw_reasons
    raw_warnings reaction_score session_score volume_score chop_penalty clamp round_ℚ strength_label
    mean timeframe_weight normalize_node body_to_range_ratio
one_bar_repaints = refl
