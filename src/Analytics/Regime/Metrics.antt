-- ===== src/Analytics/Regime/Metrics.antt =====
-- The metrics of src/analytics/regime_detection.py.
use mathlib.Core.Path.{subst}
use apex_xauusd_engine.Prelude.{
  ℕ, ◌-◌, ◌*◌, ◌≤◌, ◌<◌, ◌≡◌, refl, sym, false, some, List, [], ◌∷◌, map, arith, ltb, Bool-cases,
  ltb→le, inl, inr, length, length-drop, get_last?, ◌==◌,
}
use apex_xauusd_engine.Prelude.Rat.{ℚ, of_ℕ, lit, zero_ℚ, ltb_ℚ, min_ℚ, abs_ℚ, ◌-ℚ◌, ◌*ℚ◌, ◌/ℚ◌}
use apex_xauusd_engine.Prelude.Rat.Order.{cross→le}
use apex_xauusd_engine.Prelude.Rat.Sums.{abs_nonneg}
use apex_xauusd_engine.Prelude.Rat.Products.{mul_nonneg}
use apex_xauusd_engine.Prelude.Rat.Extrema.{le-max_right, max-le, min-le_right}
use apex_xauusd_engine.Domain.{CandleNode}
use apex_xauusd_engine.Analytics.Regime.{
  Statistics, RegimeEngine, MarketEnvironmentMetrics, new_regime_engine, append_all, last_part,
  vol_z, vol_ratio, extract_environment_metrics, metrics_of, fallback_metrics, clip_value,
  trend_coefficient, spread_of,
}
use apex_xauusd_engine.Analytics.Regime.Windows.{append_all-latest, holding, latest, length-map}

-- What holds of all metrics.
abbrev pub IsSound : ℚ → MarketEnvironmentMetrics → Type 0
IsSound velocity m =
    (m.tick_velocity_per_second ≡ velocity)
    × (ltb_ℚ m.trend_strength_adx zero_ℚ ≡ false)
    × (ltb_ℚ m.confidence_score (lit 10 0) ≡ false)
    × (ltb_ℚ (lit 100 0) m.confidence_score ≡ false)

clip_value-low : (v low high : ℚ) → ltb_ℚ (clip_value v low high) low ≡ false
clip_value-low v low high = le-max_right (min_ℚ v high) low

clip_value-high :
    (v low high : ℚ) → ltb_ℚ high low ≡ false → ltb_ℚ high (clip_value v low high) ≡ false
clip_value-high v low high h = max-le (min_ℚ v high) low high (min-le_right v high) h

fallback_metrics-IsSound : (velocity : ℚ) → IsSound velocity (fallback_metrics velocity)
unfolding ltb_ℚ
fallback_metrics-IsSound velocity = (refl, refl, refl, refl)

metrics_of-IsSound :
    (np : Statistics) (e : RegimeEngine) (velocity z : ℚ)
    → IsSound velocity (metrics_of np e velocity z)
metrics_of-IsSound np e velocity z = (
  refl,
  mul_nonneg (abs_ℚ (trend_coefficient np e)) (lit 50 0) (abs_nonneg (trend_coefficient np e))
      (cross→le zero_ℚ (lit 50 0) (omega arith)),
  clip_value-low (lit 100 0 -ℚ vol_ratio np e *ℚ lit 10 0) (lit 10 0) (lit 100 0),
  clip_value-high (lit 100 0 -ℚ vol_ratio np e *ℚ lit 10 0) (lit 10 0) (lit 100 0)
      (cross→le (lit 10 0) (lit 100 0) (omega arith)),
)

-- A list that is not empty has a last element.
get_last?-some {ℓ} : {A : Type ℓ} (xs : List A) → 0 < length xs → (x : A) × (get_last? xs ≡ some x)
get_last?-some [] h = absurd (omega arith)
get_last?-some (x ∷ []) h = (x, refl)
get_last?-some (x ∷ y ∷ xs) h = get_last?-some (y ∷ xs) (omega arith)

length-last_part {ℓ} :
    {A : Type ℓ} (n : ℕ) (xs : List A) → 0 < n → n ≤ length xs → length (last_part n xs) ≡ n
length-last_part n xs positive enough =
    let positive_only : (n == 0) ≡ false = ground arith in
    rw positive_only (omega (arith, length-drop (length xs - n) xs))

-- A volume score exists where there are enough volumes.
vol_z-some :
    (np : Statistics) (e : RegimeEngine)
    → 0 < e.period
    → e.period ≤ length e.candle_volumes
    → (z : ℚ) × (vol_z np e ≡ some z)
unfolding vol_z
vol_z-some np e positive enough =
    let volumes = map of_ℕ (last_part e.period e.candle_volumes) in
    let (v, last) = get_last?-some volumes (
      omega (
        arith,
        length-map of_ℕ (last_part e.period e.candle_volumes),
        length-last_part e.period e.candle_volumes positive enough,
      )) in
    elim (Bool-cases (ltb_ℚ zero_ℚ (np.std volumes))) [
      | inl spread ↦ rw (spread, last) ((v -ℚ np.mean volumes) /ℚ np.std volumes, refl)
      | inr flat ↦ rw flat (zero_ℚ, refl)
    ]

abbrev pub Measures : Statistics → ℚ → RegimeEngine → Type 0
Measures np velocity e =
    (m : MarketEnvironmentMetrics) × (extract_environment_metrics np velocity e ≡ some m)
    × IsSound velocity m

extract-Measures :
    (np : Statistics) (velocity : ℚ) (e : RegimeEngine)
    → 0 < e.period
    → length e.candle_volumes ≡ length e.candle_spreads
    → Measures np velocity e
unfolding extract_environment_metrics
extract-Measures np velocity e positive same =
    elim (Bool-cases (ltb (length e.candle_spreads) e.period)) [
      | inl short ↦ rw short (fallback_metrics velocity, refl, fallback_metrics-IsSound velocity)
      | inr full ↦
          let (z, has) = vol_z-some np e positive (omega (arith, same, ltb→le _ _ full)) in
          rw (full, has) (metrics_of np e velocity z, refl, metrics_of-IsSound np e velocity z)
    ]

-- With a positive period, whatever the statistics are and after any candles, the extraction does
-- not raise. Its metrics bear the velocity that was given, a trend strength that is not negative and
-- a confidence from 10 to 100.
pub extract_environment_metrics-Measures :
    (np : Statistics) (velocity : ℚ) (period : ℕ) (candles : List CandleNode)
    → 0 < period
    → Measures np velocity (append_all candles (new_regime_engine period))
unfolding new_regime_engine
extract_environment_metrics-Measures np velocity period candles positive =
    subst (Measures np velocity) (sym (append_all-latest period candles)) (
      extract-Measures np velocity (holding period candles) positive (
        omega (
          arith,
          length-map spread_of (latest (period * 5) candles),
          length-map (λ c. c.volume) (latest (period * 5) candles),
        )))
