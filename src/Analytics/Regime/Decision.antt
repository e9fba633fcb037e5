-- ===== src/Analytics/Regime/Decision.antt =====
-- The decision matrix of src/analytics/regime_detection.py.
use mathlib.Core.Path.{subst}
use apex_xauusd_engine.Prelude.{
  ◌≡◌, refl, Bool, true, false, not, ◌&&◌, arith, if◌then◌else◌, Bool-cases, inl, inr, ◌⊎◌, ◌↔◌,
}
use apex_xauusd_engine.Prelude.Rat.{ℚ, lit, ltb_ℚ}
use apex_xauusd_engine.Prelude.Rat.Order.{cross→le, le_trans, lt_asymm, lt-le_trans}
use apex_xauusd_engine.Analytics.Regime.Regimes.{
  IsLive, IsOrderly, Describes, quiet, volatility_shock, volume_shock, accelerating, expanding,
  compressed, strong, weak, ranging,
}
use apex_xauusd_engine.Analytics.Regime.{
  DetailedRegimeType, momentum_acceleration, volatility_expansion, trending_strong, trending_weak,
  range_bound, RegimeEngine, MarketEnvironmentMetrics, regime_for, classify_regime,
}

and_not-false : (b k : Bool) → (b ≡ false) ⊎ (k ≡ true) → (b && not k) ≡ false
and_not-false b k h = ground arith

and_not-cases :
    (b k : Bool)
    → ((b ≡ true) × (k ≡ false)) ⊎ (((b ≡ false) ⊎ (k ≡ true)) × ((b && not k) ≡ false))
and_not-cases true true = inr (inr refl, refl)
and_not-cases true false = inl (refl, refl)
and_not-cases false k = inr (inl refl, refl)

Live-goes_on :
    (m : MarketEnvironmentMetrics) (is_killzone : Bool)
    → IsLive m is_killzone
    → (ltb_ℚ m.tick_velocity_per_second (lit 5 1) && not is_killzone) ≡ false
Live-goes_on m is_killzone = and_not-false (ltb_ℚ m.tick_velocity_per_second (lit 5 1)) is_killzone

-- A number below one bound is not above a higher one, and not above a higher one if not above a lower.
below-not_above : (a b c : ℚ) → ltb_ℚ a b ≡ true → ltb_ℚ c b ≡ false → ltb_ℚ c a ≡ false
below-not_above a b c h k = lt_asymm a c (lt-le_trans a b c h k)

ordinary≤shock : ltb_ℚ (lit 3 0) (lit 14 1) ≡ false
ordinary≤shock = cross→le (lit 14 1) (lit 3 0) (omega arith)

Describes-regime_for :
    (m : MarketEnvironmentMetrics) (is_killzone : Bool) (r : DetailedRegimeType)
    → Describes m is_killzone r
    → regime_for m is_killzone ≡ r
unfolding regime_for
Describes-regime_for m k r (quiet h z) = rw (h, z) refl
Describes-regime_for m k r (volatility_shock l h) = rw (Live-goes_on m k l, h) refl
Describes-regime_for m k r (volume_shock l h) =
    elim (Bool-cases (ltb_ℚ (lit 3 0) m.volatility_ratio)) [
      | inl both ↦ rw (Live-goes_on m k l, both) refl
      | inr one ↦ rw (Live-goes_on m k l, one, h) refl
    ]
Describes-regime_for m k r (accelerating (l, z) h s a) = rw (Live-goes_on m k l, h, s, z, a) refl
Describes-regime_for m k r (expanding (l, z) h s a) = rw (Live-goes_on m k l, h, s, z, a) refl
Describes-regime_for m k r (compressed (l, z) h) =
    rw
      (
        Live-goes_on m k l,
        z,
        h,
        below-not_above m.volatility_ratio (lit 75 2) (lit 14 1) h
            (cross→le (lit 75 2) (lit 14 1) (omega arith)),
        below-not_above m.volatility_ratio (lit 75 2) (lit 3 0) h
            (cross→le (lit 75 2) (lit 3 0) (omega arith)),
      )
      refl
Describes-regime_for m k r (strong (l, z) low high a) =
    rw
      (
        Live-goes_on m k l,
        z,
        low,
        high,
        le_trans m.volatility_ratio (lit 14 1) (lit 3 0) high ordinary≤shock,
        a,
      )
      refl
Describes-regime_for m k r (weak (l, z) low high a b) =
    rw
      (
        Live-goes_on m k l,
        z,
        low,
        high,
        le_trans m.volatility_ratio (lit 14 1) (lit 3 0) high ordinary≤shock,
        a,
        b,
      )
      refl
Describes-regime_for m k r (ranging (l, z) low high a) =
    rw
      (
        Live-goes_on m k l,
        z,
        low,
        high,
        le_trans m.volatility_ratio (lit 14 1) (lit 3 0) high ordinary≤shock,
        a,
        below-not_above m.trend_strength_adx (lit 5 1) (lit 2 0) a
            (cross→le (lit 5 1) (lit 2 0) (omega arith)),
      )
      refl

-- The trend decides between the regimes of an ordinary volatility,
ordinary-Describes :
    (m : MarketEnvironmentMetrics) (k : Bool)
    → IsOrderly m k
    → ltb_ℚ m.volatility_ratio (lit 75 2) ≡ false
    → ltb_ℚ (lit 14 1) m.volatility_ratio ≡ false
    → Describes m k (
        if ltb_ℚ (lit 2 0) m.trend_strength_adx
        then trending_strong
        else if ltb_ℚ m.trend_strength_adx (lit 5 1)
        then range_bound
        else trending_weak)
ordinary-Describes m k orderly low high = elim (Bool-cases (ltb_ℚ (lit 2 0) m.trend_strength_adx)) [
  | inl a ↦ rw a (strong orderly low high a)
  | inr a ↦ elim (Bool-cases (ltb_ℚ m.trend_strength_adx (lit 5 1))) [
    | inl b ↦ rw (a, b) (ranging orderly low high b)
    | inr b ↦ rw (a, b) (weak orderly low high b a)
  ]
]

-- and between those of an expanding one.
expanding-Describes :
    (m : MarketEnvironmentMetrics) (k : Bool)
    → IsOrderly m k
    → ltb_ℚ (lit 14 1) m.volatility_ratio ≡ true
    → ltb_ℚ (lit 3 0) m.volatility_ratio ≡ false
    → Describes m k (
        if ltb_ℚ (lit 15 1) m.trend_strength_adx
        then momentum_acceleration
        else volatility_expansion)
expanding-Describes m k orderly high calm =
    elim (Bool-cases (ltb_ℚ (lit 15 1) m.trend_strength_adx)) [
      | inl a ↦ rw a (accelerating orderly high calm a)
      | inr a ↦ rw a (expanding orderly high calm a)
    ]

orderly-Describes :
    (m : MarketEnvironmentMetrics) (k : Bool)
    → IsOrderly m k
    → ltb_ℚ (lit 3 0) m.volatility_ratio ≡ false
    → Describes m k (regime_for m k)
unfolding regime_for
orderly-Describes m k (live, z) calm = elim (Bool-cases (ltb_ℚ (lit 14 1) m.volatility_ratio)) [
  | inl high ↦
      rw (Live-goes_on m k live, calm, z, high) (expanding-Describes m k (live, z) high calm)
  | inr high ↦ elim (Bool-cases (ltb_ℚ m.volatility_ratio (lit 75 2))) [
    | inl low ↦ rw (Live-goes_on m k live, calm, z, high, low) (compressed (live, z) low)
    | inr low ↦
        rw (Live-goes_on m k live, calm, z, high, low) (ordinary-Describes m k (live, z) low high)
  ]
]

live-Describes :
    (m : MarketEnvironmentMetrics) (k : Bool) → IsLive m k → Describes m k (regime_for m k)
unfolding regime_for
live-Describes m k live = elim (Bool-cases (ltb_ℚ (lit 3 0) m.volatility_ratio)) [
  | inl shock ↦ rw (Live-goes_on m k live, shock) (volatility_shock live shock)
  | inr calm ↦ elim (Bool-cases (ltb_ℚ (lit 35 1) m.volume_z_score)) [
    | inl shock ↦ rw (Live-goes_on m k live, calm, shock) (volume_shock live shock)
    | inr z ↦ orderly-Describes m k (live, z) calm
  ]
]

regime_for-Describes : (m : MarketEnvironmentMetrics) (k : Bool) → Describes m k (regime_for m k)
unfolding regime_for
regime_for-Describes m k = elim (and_not-cases (ltb_ℚ m.tick_velocity_per_second (lit 5 1)) k) [
  | inl (slow, off) ↦ rw (slow, off) (quiet slow refl)
  | inr (live, h) ↦ live-Describes m k live
]

-- The classification is a regime exactly when the regime's intervals hold the metrics, and the engine
-- remembers it.
pub classify_regime-Describes :
    (m : MarketEnvironmentMetrics) (is_killzone : Bool) (e : RegimeEngine) (r : DetailedRegimeType)
    → let (regime, after) = classify_regime m is_killzone e in
      ((regime ≡ r) ↔ Describes m is_killzone r) × (after.last_regime ≡ regime)
unfolding classify_regime
classify_regime-Describes m is_killzone e r = (
  (
    λ same. subst (Describes m is_killzone) same (regime_for-Describes m is_killzone),
    Describes-regime_for m is_killzone r,
  ),
  refl,
)
