-- ===== src/Analytics/Swings/Confirmation.antt =====
-- The swings that the loop of `_collect_raw_swings` finds, which `_filter_and_rescore` then filters,
-- are not revised when more candles close.
use apex_xauusd_engine.Prelude.{
  ℕ, zero, suc, ◌+◌, ◌-◌, ◌≤◌, ◌<◌, ◌≡◌, refl, sym, ap, Option, none, some, List, [], ◌∷◌, ◌++◌,
  arith, length, length-append, get_elem?, All,
}
use native.Mathlib.Nat.{zero-add, add-zero, suc-add, add-suc}
use mathlib.Core.List.{append_assoc}
use apex_xauusd_engine.Prelude.Slices.{slice-append, get_elem?-append, get_elem?-append_right}
use apex_xauusd_engine.Prelude.Rat.{ℚ}
use apex_xauusd_engine.Analytics.Swings.Types.{
  SwingDetectionConfig, DetectedSwingPoint, OhlcvCandle, SwingPointType, swing_high, swing_low,
}
use apex_xauusd_engine.Analytics.Swings.Atr.{atr_from, calculate_atr}
use apex_xauusd_engine.Analytics.Swings.Scores.{
  volume_score, chop_penalty, raw_score, raw_reasons, raw_warnings,
}
use apex_xauusd_engine.Analytics.Swings.Collected.{swings_with-All, swings_from-All}
use apex_xauusd_engine.Analytics.Swings.Detect.{
  build_swing, swings_with, swings_at, swings_from, collect_raw_swings,
}

pub atr_from-append :
    (period : ℕ) (xs ys : List OhlcvCandle) (n : ℕ) (ranges : List ℚ) (previous : Option ℚ)
    → n < length xs
    → get_elem? (atr_from period ranges previous (xs ++ ys)) n
      ≡ get_elem? (atr_from period ranges previous xs) n
unfolding atr_from
atr_from-append period [] ys n ranges previous h = elim h [ ]
atr_from-append period (x ∷ xs) ys zero ranges previous h = refl
atr_from-append period (x ∷ xs) ys (suc n) ranges previous h =
    atr_from-append period xs ys n _ (some x.close_p) (omega arith)

-- The candles `xs`, and the later ones; a position with two candles to its right.
module _ (c : SwingDetectionConfig) (xs ys : List OhlcvCandle) (position : ℕ) where
  volume_score-append :
      (current : OhlcvCandle)
      → position ≤ length xs
      → volume_score c (xs ++ ys) position current ≡ volume_score c xs position current
  unfolding volume_score
  volume_score-append current h = rw (slice-append (position - 20) position xs ys (omega arith) h)

  chop_penalty-append :
      (atr_value : ℚ)
      → position + 3 ≤ length xs
      → chop_penalty (xs ++ ys) atr_value position ≡ chop_penalty xs atr_value position
  unfolding chop_penalty
  chop_penalty-append atr_value h =
      rw (slice-append (position - 2) (position + 3) xs ys (omega arith) h)

  build_swing-append :
      (current confirming : OhlcvCandle) (atr_value : ℚ) (swing_type : SwingPointType)
      → position + 3 ≤ length xs
      → position + c.right_bars + 1 ≤ length xs
      → build_swing c (xs ++ ys) position current confirming atr_value swing_type
        ≡ build_swing c xs position current confirming atr_value swing_type
  unfolding build_swing raw_score raw_reasons raw_warnings
  build_swing-append current confirming atr_value swing_type h k = rw (
    slice-append (position + 1) (position + c.right_bars + 1) xs ys (omega arith) k,
    volume_score-append current (omega arith),
    chop_penalty-append atr_value h,
  )

  swings_with-append :
      (current confirming : Option OhlcvCandle) (atr_value : Option ℚ)
      → position + 3 ≤ length xs
      → position + c.right_bars + 1 ≤ length xs
      → swings_with c (xs ++ ys) position current confirming atr_value
        ≡ swings_with c xs position current confirming atr_value
  unfolding swings_with
  swings_with-append (some current) (some confirming) (some atr_value) h k = rw (
    slice-append (position - c.left_bars) position xs ys (omega arith) (omega arith),
    slice-append (position + 1) (position + c.right_bars + 1) xs ys (omega arith) k,
    build_swing-append current confirming atr_value swing_high h k,
    build_swing-append current confirming atr_value swing_low h k,
  )
  swings_with-append none confirming atr_value h k = refl
  swings_with-append (some current) none atr_value h k = refl
  swings_with-append (some current) (some confirming) none h k = refl

-- The swings that the loop finds on the candles so far.
abbrev pub raw_swings : SwingDetectionConfig → List OhlcvCandle → List DetectedSwingPoint
raw_swings c candles = collect_raw_swings c candles (calculate_atr c.atr_period candles)

module _ (c : SwingDetectionConfig) (xs ys : List OhlcvCandle) (wide : 2 ≤ c.right_bars) where
  swings_at-append :
      (position : ℕ)
      → position + c.right_bars < length xs
      → swings_at c (xs ++ ys) (calculate_atr c.atr_period (xs ++ ys)) position
        ≡ swings_at c xs (calculate_atr c.atr_period xs) position
  unfolding swings_at calculate_atr
  swings_at-append position h =
      rw
        (
          get_elem?-append xs ys position (omega arith),
          get_elem?-append xs ys (position + c.right_bars) h,
          atr_from-append c.atr_period xs ys position [] none (omega arith),
        )
        (swings_with-append c xs ys position _ _ _ (omega arith) (omega arith))

  swings_from-append :
      (count position : ℕ)
      → (0 < count → position + count + c.right_bars ≤ length xs)
      → swings_from c (xs ++ ys) (calculate_atr c.atr_period (xs ++ ys)) position count
        ≡ swings_from c xs (calculate_atr c.atr_period xs) position count
  unfolding swings_from
  swings_from-append zero position h = refl
  swings_from-append (suc count) position h = rw (
    swings_at-append position (omega (arith, h (omega arith))),
    swings_from-append count (suc position) (λ more. omega (arith, h (omega arith))),
  )

-- Two runs of the loop, one after the other.
swings_from-split :
    (c : SwingDetectionConfig) (candles : List OhlcvCandle) (atr_values : List ℚ) (n m position : ℕ)
    → swings_from c candles atr_values position (n + m)
      ≡ swings_from c candles atr_values position n
        ++ swings_from c candles atr_values (position + n) m
unfolding swings_from
swings_from-split c candles atr_values zero m position = rw (zero-add m, add-zero position)
swings_from-split c candles atr_values (suc n) m position = rw (
  suc-add n m,
  swings_from-split c candles atr_values n m (suc position),
  append_assoc (swings_at c candles atr_values position),
  suc-add position n,
  add-suc position n,
)

-- The swing is confirmed by one of the candles.
abbrev pub ConfirmedBy : List OhlcvCandle → DetectedSwingPoint → Type 0
ConfirmedBy candles s =
    (k : ℕ) × (o : OhlcvCandle) × (get_elem? candles k ≡ some o)
    × (s.confirmation_index ≡ o.index)
    × (s.confirmation_timestamp ≡ o.timestamp)

module _ (c : SwingDetectionConfig) (xs ys : List OhlcvCandle) where
  swings_with-ConfirmedBy :
      (position k : ℕ) (current confirming : Option OhlcvCandle) (atr_value : Option ℚ)
      → confirming ≡ get_elem? ys k
      → All (ConfirmedBy ys) (swings_with c (xs ++ ys) position current confirming atr_value)
  unfolding swings_with build_swing
  swings_with-ConfirmedBy position k (some current) (some confirming) (some atr_value) e =
      swings_with-All (ConfirmedBy ys) c (xs ++ ys) position current confirming atr_value
        (λ h. (k, confirming, sym e, refl, refl)) (λ h. (k, confirming, sym e, refl, refl))
  swings_with-ConfirmedBy position k none confirming atr_value e = tt
  swings_with-ConfirmedBy position k (some current) none atr_value e = tt
  swings_with-ConfirmedBy position k (some current) (some confirming) none e = tt

  pub swings_at-ConfirmedBy :
      (atr_values : List ℚ) (position : ℕ)
      → length xs ≤ position + c.right_bars
      → All (ConfirmedBy ys) (swings_at c (xs ++ ys) atr_values position)
  unfolding swings_at
  swings_at-ConfirmedBy atr_values position h =
      swings_with-ConfirmedBy position (position + c.right_bars - length xs) _ _ _
        (get_elem?-append_right xs ys (position + c.right_bars) h)

-- With at least two candles to the right, the swings that the loop finds on some candles, before they
-- are filtered, stay as they are when more candles close, and the further ones are each confirmed by one of the new candles.
pub raw_swings-append :
    (c : SwingDetectionConfig) (xs ys : List OhlcvCandle)
    → 2 ≤ c.right_bars
    → (later : List DetectedSwingPoint) × (raw_swings c (xs ++ ys) ≡ raw_swings c xs ++ later)
      × All (ConfirmedBy ys) later
unfolding collect_raw_swings
raw_swings-append c xs ys wide =
    let n = length xs - c.right_bars - c.left_bars in
    let total = length (xs ++ ys) - c.right_bars - c.left_bars in
    let atr_values = calculate_atr c.atr_period (xs ++ ys) in
    (
      swings_from c (xs ++ ys) atr_values (c.left_bars + n) (total - n),
      rw (← swings_from-append c xs ys wide n c.left_bars (λ some_found. omega arith)) (
          rw (← swings_from-split c (xs ++ ys) atr_values n (total - n) c.left_bars) (
            ap (swings_from c (xs ++ ys) atr_values c.left_bars)
              (omega (arith, length-append xs ys)))),
      swings_from-All (ConfirmedBy ys) c (xs ++ ys) atr_values (total - n) (c.left_bars + n)
          (λ p h k. swings_at-ConfirmedBy c xs ys atr_values p (omega arith)),
    )
