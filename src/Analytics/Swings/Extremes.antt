-- ===== src/Analytics/Swings/Extremes.antt =====
-- What each detected swing is: a closed candle strictly beyond all its neighbours, with a score in
-- range.
use apex_xauusd_engine.Prelude.{
  ◌+◌, ◌≡◌, ◌&&◌, Option, List, [], ◌∷◌, length, All, All-reverse, if_both, ltb, if◌then◌else◌,
}
use mathlib.Core.List.{reverse}
use apex_xauusd_engine.Prelude.Int.{ltb_ℤ, ◌-ℤ◌}
use apex_xauusd_engine.Prelude.Rat.{ℚ, ltb_ℚ, abs_ℚ, ◌-ℚ◌}
use apex_xauusd_engine.Errors.{ok, >>=-eq-ok, ok_injective}
use apex_xauusd_engine.Domain.{Timeframe}
use apex_xauusd_engine.Analytics.Swings.Types.{
  SwingDetectionConfig, DetectedSwingPoint, OhlcvCandle,
}
use apex_xauusd_engine.Analytics.Swings.Normalize.{CandleInput, normalize_candles}
use apex_xauusd_engine.Analytics.Swings.Atr.{calculate_atr}
use apex_xauusd_engine.Analytics.Swings.Detect.{collect_raw_swings}
use apex_xauusd_engine.Analytics.Swings.Filter.{
  prefer_more_extreme, prefer_stronger, with_distance_score, insert_sorted, sorted_swings,
  comes_before, accept, accept_all, same_point_type, filter_and_rescore, detect_closed,
  closed_candles, detect,
}
use apex_xauusd_engine.Analytics.Swings.Pivots.{
  Confirmed, with_distance_score-Confirmed, collected-Confirmed,
}

module _ (c : SwingDetectionConfig) (candles : List OhlcvCandle) where
  -- The choices of the filter keep what holds of all the swings.
  module _ (atr_values : List ℚ) where
    accept-Confirmed :
        (accepted : List DetectedSwingPoint) (s : DetectedSwingPoint)
        → All (Confirmed c candles) accepted
        → Confirmed c candles s
        → All (Confirmed c candles) (accept c atr_values accepted s)
    unfolding accept prefer_more_extreme prefer_stronger
    accept-Confirmed [] s earlier found =
        if_both (All (Confirmed c candles)) _ [] (s ∷ []) tt (found, tt)
    accept-Confirmed (last ∷ rest) s earlier found =
        let more_extreme : Confirmed c candles (prefer_more_extreme last s) =
          if_both (Confirmed c candles) _ s last found earlier.0 in
        let stronger : Confirmed c candles (prefer_stronger last s) =
          if_both (Confirmed c candles) _ s last found earlier.0 in
        let kept =
          if same_point_type s.point_type last.point_type
          then prefer_more_extreme last s
          else prefer_stronger last s in
        let distant = with_distance_score s (abs_ℚ (s.price -ℚ last.price)) atr_values c in
        let choose = if_both (All (Confirmed c candles)) in
        let same_kind = same_point_type s.point_type last.point_type in
        let other_swing =
          if same_kind then prefer_more_extreme last s ∷ rest else distant ∷ last ∷ rest in
        let close_to_last = ltb_ℤ (s.index -ℤ last.index) c.min_candle_gap in
        choose (c.require_min_atr_reaction && ltb_ℚ s.atr_reaction c.min_atr_reaction) (last ∷ rest)
          (if close_to_last then kept ∷ rest else other_swing) earlier
          (choose close_to_last (kept ∷ rest) other_swing
            (
              if_both (Confirmed c candles) _ (prefer_more_extreme last s) (prefer_stronger last s)
                  more_extreme stronger,
              earlier.1,
            )
            (choose same_kind (prefer_more_extreme last s ∷ rest) (distant ∷ last ∷ rest)
              (more_extreme, earlier.1)
              (with_distance_score-Confirmed c candles s _ atr_values found, earlier)))

    accept_all-Confirmed :
        (accepted swings : List DetectedSwingPoint)
        → All (Confirmed c candles) accepted
        → All (Confirmed c candles) swings
        → All (Confirmed c candles) (accept_all c atr_values accepted swings)
    unfolding accept_all
    accept_all-Confirmed accepted [] earlier found = earlier
    accept_all-Confirmed accepted (s ∷ swings) earlier found =
        accept_all-Confirmed (accept c atr_values accepted s) swings
          (accept-Confirmed accepted s earlier found.0) found.1

  insert_sorted-Confirmed :
      (s : DetectedSwingPoint) (swings : List DetectedSwingPoint)
      → Confirmed c candles s
      → All (Confirmed c candles) swings
      → All (Confirmed c candles) (insert_sorted s swings)
  unfolding insert_sorted
  insert_sorted-Confirmed s [] found others = (found, tt)
  insert_sorted-Confirmed s (t ∷ ts) found others =
      if_both (All (Confirmed c candles)) (comes_before t s) (t ∷ insert_sorted s ts) (s ∷ t ∷ ts)
        (others.0, insert_sorted-Confirmed s ts found others.1) (found, others)

  sorted-Confirmed :
      (swings : List DetectedSwingPoint)
      → All (Confirmed c candles) swings
      → All (Confirmed c candles) (sorted_swings swings)
  unfolding sorted_swings
  sorted-Confirmed [] found = tt
  sorted-Confirmed (s ∷ swings) found =
      insert_sorted-Confirmed s (sorted_swings swings) found.0 (sorted-Confirmed swings found.1)

  detect_closed-Confirmed : All (Confirmed c candles) (detect_closed c candles)
  unfolding detect_closed filter_and_rescore
  detect_closed-Confirmed =
      let atr_values = calculate_atr c.atr_period candles in
      let raw = collect_raw_swings c candles atr_values in
      let accepted = accept_all c atr_values [] (sorted_swings raw) in
      if_both (All (Confirmed c candles)) (ltb (length candles) (c.left_bars + c.right_bars + 1)) []
        (reverse accepted) tt
        (All-reverse (Confirmed c candles) accepted (
          accept_all-Confirmed atr_values [] (sorted_swings raw) tt
            (sorted-Confirmed raw (collected-Confirmed c candles atr_values))))

-- Every swing that `detect` returns is a closed candle whose price is strictly beyond those of all
-- its neighbours, `left_bars` before it and `right_bars` after it, names the closed candle that
-- confirms it, and has a score between 0 and 10 with the label of that score.
pub detect-Confirmed :
    (c : SwingDetectionConfig) (timeframe : Option Timeframe) (candles : List CandleInput)
    (swings : List DetectedSwingPoint)
    → detect c timeframe candles ≡ ok swings
    → (normalized : List OhlcvCandle) × (normalize_candles timeframe c.timeframe 0 candles
        ≡ ok normalized)
      × All (Confirmed c (closed_candles normalized)) swings
unfolding detect
detect-Confirmed c timeframe candles swings returned =
    let (normalized, e, h) =
      >>=-eq-ok (normalize_candles timeframe c.timeframe 0 candles)
        (λ normalized. ok (detect_closed c (closed_candles normalized))) returned in
    (normalized, e, rw (← ok_injective h) (detect_closed-Confirmed c (closed_candles normalized)))
