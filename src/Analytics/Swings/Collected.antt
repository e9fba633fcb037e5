-- ===== src/Analytics/Swings/Collected.antt =====
-- What holds of every swing that the loop of `_collect_raw_swings` builds.
use apex_xauusd_engine.Prelude.{
  ℕ, zero, suc, ◌+◌, ◌<◌, ◌≤◌, ◌≡◌, refl, Bool, true, false, not, ◌&&◌, some, List, [], ◌++◌, arith,
  All, All-append, if_both,
}
use apex_xauusd_engine.Prelude.Rat.{ℚ}
use apex_xauusd_engine.Analytics.Swings.Types.{
  SwingDetectionConfig, DetectedSwingPoint, OhlcvCandle, swing_high, swing_low,
}
use apex_xauusd_engine.Analytics.Swings.Scores.{only_if}
use apex_xauusd_engine.Analytics.Swings.Detect.{
  build_swing, neighbours, is_high, is_low, has_equal_high_or_low, swings_with, swings_at,
  swings_from,
}

All-only_if {ℓ κ} :
    {A : Type ℓ} (P : A → Type κ) (test : Bool) (a : A)
    → (test ≡ true → P a)
    → All P (only_if test a)
All-only_if P true a h = (h refl, tt)
All-only_if P false a h = tt

module _ (P : DetectedSwingPoint → Type 0) (c : SwingDetectionConfig)
    (candles : List OhlcvCandle) where
  pub swings_with-All :
      (position : ℕ) (current confirming : OhlcvCandle) (atr_value : ℚ)
      → (is_high current (neighbours c candles position) ≡ true
          → P (build_swing c candles position current confirming atr_value swing_high))
      → (is_low current (neighbours c candles position) ≡ true
          → P (build_swing c candles position current confirming atr_value swing_low))
      → All P (swings_with c candles position (some current) (some confirming) (some atr_value))
  unfolding swings_with
  swings_with-All position current confirming atr_value high low =
      let window = neighbours c candles position in
      let built = build_swing c candles position current confirming atr_value in
      let upper = only_if (is_high current window) (built swing_high) in
      let lower = only_if (is_low current window) (built swing_low) in
      if_both (All P)
        (not (is_high current window)
          && not (is_low current window)
          && has_equal_high_or_low c current window atr_value)
        [] (upper ++ lower) tt
        (All-append P upper lower (All-only_if P (is_high current window) (built swing_high) high)
          (All-only_if P (is_low current window) (built swing_low) low))

  pub swings_from-All :
      (atr_values : List ℚ) (count position : ℕ)
      → ((p : ℕ) → position ≤ p → p < position + count → All P (swings_at c candles atr_values p))
      → All P (swings_from c candles atr_values position count)
  unfolding swings_from
  swings_from-All atr_values zero position each = tt
  swings_from-All atr_values (suc count) position each =
      All-append P (swings_at c candles atr_values position)
        (swings_from c candles atr_values (suc position) count)
        (each position (omega arith) (omega arith))
        (swings_from-All atr_values count (suc position)
          (λ p h k. each p (omega arith) (omega arith)))
