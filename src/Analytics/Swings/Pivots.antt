-- ===== src/Analytics/Swings/Pivots.antt =====
-- What a confirmed swing is: a candle strictly beyond all its neighbours, with a score in range; and
-- that the swings that `_collect_raw_swings` builds are such.
use apex_xauusd_engine.Prelude.{
  ℕ, ◌+◌, ◌-◌, ◌≤◌, ◌<◌, ◌≡◌, refl, Bool, true, false, Option, none, some, List, [], ◌∷◌, arith,
  length, length-append, get_elem?, slice, All,
}
use apex_xauusd_engine.Prelude.Int.{pos}
use apex_xauusd_engine.Prelude.Slices.{length-slice}
use apex_xauusd_engine.Prelude.Rat.{ℚ, ltb_ℚ, zero_ℚ, lit, round_ℚ, max_ℚ}
use apex_xauusd_engine.Prelude.Rat.Round.{grid, le-round, round-le}
use apex_xauusd_engine.Prelude.Rat.Extrema.{le-max_left, min-le_left, le-min}
use apex_xauusd_engine.Prelude.Rat.Order.{le_trans, cross→le}
use apex_xauusd_engine.Analytics.Swings.Types.{
  SwingDetectionConfig, DetectedSwingPoint, OhlcvCandle, SwingPointType, swing_high, swing_low,
}
use apex_xauusd_engine.Analytics.Swings.Scores.{clamp, strength_label, raw_score}
use apex_xauusd_engine.Analytics.Swings.Detect.{
  all_of, build_swing, neighbours, price_of, is_high, is_low, swings_with, swings_at,
  collect_raw_swings,
}
use apex_xauusd_engine.Analytics.Swings.Filter.{with_distance_score}
use apex_xauusd_engine.Analytics.Swings.Collected.{swings_with-All, swings_from-All}

abbrev pub IsExtreme : SwingPointType → OhlcvCandle → List OhlcvCandle → Type 0
IsExtreme swing_high current = All (λ o. ltb_ℚ o.high_p current.high_p ≡ true)
IsExtreme swing_low current = All (λ o. ltb_ℚ current.low_p o.low_p ≡ true)

-- The swing names a candle that stands out on both sides, and the candle that confirms it.
pub record IsPivot (c : SwingDetectionConfig) (candles : List OhlcvCandle) (s : DetectedSwingPoint)
    (p : ℕ) (current confirming : OhlcvCandle) : Type 0 where
  pub stands : get_elem? candles p ≡ some current
  pub confirms : get_elem? candles (p + c.right_bars) ≡ some confirming
  pub both_sides : length (neighbours c candles p) ≡ c.left_bars + c.right_bars
  pub extreme : IsExtreme s.point_type current (neighbours c candles p)
  pub index : s.index ≡ current.index
  pub timestamp : s.timestamp ≡ current.timestamp
  pub confirmation : s.confirmation_timestamp ≡ confirming.timestamp
  pub price : s.price ≡ price_of s.point_type current

-- The score lies between 0 and 10, and the label is that of the score.
pub record IsScored (s : DetectedSwingPoint) : Type 0 where
  pub at_least : ltb_ℚ s.strength_score zero_ℚ ≡ false
  pub at_most : ltb_ℚ (lit 10 0) s.strength_score ≡ false
  pub label : s.strength_label ≡ strength_label s.strength_score

abbrev pub Confirmed : SwingDetectionConfig → List OhlcvCandle → DetectedSwingPoint → Type 0
Confirmed c candles s =
    ((p : ℕ) × (current : OhlcvCandle) × (confirming : OhlcvCandle) × IsPivot c candles s p current
        confirming)
    × IsScored s

all_of-All :
    (test : OhlcvCandle → Bool) (os : List OhlcvCandle)
    → all_of test os ≡ true
    → All (λ o. test o ≡ true) os
unfolding all_of
all_of-All test [] h = tt
all_of-All test (o ∷ os) h = (ground arith, all_of-All test os (ground arith))

-- A score that is clamped and then rounded is still within the bounds.
clamp_bounds :
    (value : ℚ)
    → (ltb_ℚ (clamp value zero_ℚ (lit 10 0)) zero_ℚ ≡ false)
      × (ltb_ℚ (lit 10 0) (clamp value zero_ℚ (lit 10 0)) ≡ false)
unfolding clamp
clamp_bounds value = (
  le-min (lit 10 0) (max_ℚ zero_ℚ value) zero_ℚ (cross→le zero_ℚ (lit 10 0) (omega arith))
      (le-max_left zero_ℚ value),
  min-le_left (lit 10 0) (max_ℚ zero_ℚ value),
)

rounded_bounds :
    (value : ℚ)
    → (ltb_ℚ (round_ℚ (clamp value zero_ℚ (lit 10 0)) 2) zero_ℚ ≡ false)
      × (ltb_ℚ (lit 10 0) (round_ℚ (clamp value zero_ℚ (lit 10 0)) 2) ≡ false)
rounded_bounds value =
    let a = clamp value zero_ℚ (lit 10 0) in
    (
      le_trans zero_ℚ (grid (pos 0) 2) (round_ℚ a 2) (cross→le _ _ (omega arith)) (
          le-round (pos 0) 2 a (
            le_trans (grid (pos 0) 2) zero_ℚ a (cross→le _ _ (omega arith))
              (clamp_bounds value).0)),
      le_trans (round_ℚ a 2) (grid (pos 1000) 2) (lit 10 0)
          (round-le (pos 1000) 2 a (
            le_trans a (lit 10 0) (grid (pos 1000) 2) (clamp_bounds value).1
              (cross→le _ _ (omega arith))))
          (cross→le _ _ (omega arith)),
    )

module _ (c : SwingDetectionConfig) (candles : List OhlcvCandle) where
  built-Confirmed :
      (p : ℕ) (current confirming : OhlcvCandle) (atr_value : ℚ) (swing_type : SwingPointType)
      → c.left_bars ≤ p
      → p + c.right_bars < length candles
      → get_elem? candles p ≡ some current
      → get_elem? candles (p + c.right_bars) ≡ some confirming
      → IsExtreme swing_type current (neighbours c candles p)
      → Confirmed c candles (build_swing c candles p current confirming atr_value swing_type)
  unfolding build_swing raw_score
  built-Confirmed p current confirming atr_value swing_type left right here there extreme = (
    (
      p,
      current,
      confirming,
      record {
        stands = here;
        confirms = there;
        both_sides = omega (
          arith,
          length-append (slice (p - c.left_bars) p candles)
              (slice (p + 1) (p + c.right_bars + 1) candles),
          length-slice (p - c.left_bars) p candles (omega arith) (omega arith),
          length-slice (p + 1) (p + c.right_bars + 1) candles (omega arith) (omega arith),
        );
        extreme = extreme;
        index = refl;
        timestamp = refl;
        confirmation = refl;
        price = refl;
      },
    ),
    record { at_least = (rounded_bounds _).0; at_most = (rounded_bounds _).1; label = refl },
  )

  pub with_distance_score-Confirmed :
      (s : DetectedSwingPoint) (distance : ℚ) (atr_values : List ℚ)
      → Confirmed c candles s
      → Confirmed c candles (with_distance_score s distance atr_values c)
  unfolding with_distance_score
  with_distance_score-Confirmed s distance atr_values ((p, current, confirming, pivot), scored) = (
    (
      p,
      current,
      confirming,
      record {
        stands = pivot.stands;
        confirms = pivot.confirms;
        both_sides = pivot.both_sides;
        extreme = pivot.extreme;
        index = pivot.index;
        timestamp = pivot.timestamp;
        confirmation = pivot.confirmation;
        price = pivot.price;
      },
    ),
    record { at_least = (rounded_bounds _).0; at_most = (rounded_bounds _).1; label = refl },
  )

  is_high-IsExtreme :
      (current : OhlcvCandle) (window : List OhlcvCandle)
      → is_high current window ≡ true
      → IsExtreme swing_high current window
  unfolding is_high
  is_high-IsExtreme current window = all_of-All _ window

  is_low-IsExtreme :
      (current : OhlcvCandle) (window : List OhlcvCandle)
      → is_low current window ≡ true
      → IsExtreme swing_low current window
  unfolding is_low
  is_low-IsExtreme current window = all_of-All _ window

  swings_with-Confirmed :
      (p : ℕ) (here there : Option OhlcvCandle) (atr_value : Option ℚ)
      → c.left_bars ≤ p
      → p + c.right_bars < length candles
      → get_elem? candles p ≡ here
      → get_elem? candles (p + c.right_bars) ≡ there
      → All (Confirmed c candles) (swings_with c candles p here there atr_value)
  unfolding swings_with
  swings_with-Confirmed p (some current) (some confirming) (some atr_value) left right e f =
      swings_with-All (Confirmed c candles) c candles p current confirming atr_value
        (λ h.
          built-Confirmed p current confirming atr_value swing_high left right e f
            (is_high-IsExtreme current (neighbours c candles p) h))
        (λ h.
          built-Confirmed p current confirming atr_value swing_low left right e f
            (is_low-IsExtreme current (neighbours c candles p) h))
  swings_with-Confirmed p none there atr_value left right e f = tt
  swings_with-Confirmed p (some current) none atr_value left right e f = tt
  swings_with-Confirmed p (some current) (some confirming) none left right e f = tt

  pub collected-Confirmed :
      (atr_values : List ℚ) → All (Confirmed c candles) (collect_raw_swings c candles atr_values)
  unfolding collect_raw_swings swings_at
  collected-Confirmed atr_values =
      swings_from-All (Confirmed c candles) c candles atr_values
        (length candles - c.right_bars - c.left_bars) c.left_bars
        (λ p h k. swings_with-Confirmed p _ _ _ h (omega arith) refl refl)
