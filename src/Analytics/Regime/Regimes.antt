-- ===== src/Analytics/Regime/Regimes.antt =====
-- The regimes of src/analytics/regime_detection.py as intervals of the metrics.
use apex_xauusd_engine.Prelude.{◌≡◌, Bool, true, false, ◌⊎◌}
use apex_xauusd_engine.Prelude.Rat.{lit, ltb_ℚ}
use apex_xauusd_engine.Analytics.Regime.{
  DetailedRegimeType, illiquid_dead_zone, post_news_chaos, momentum_acceleration,
  volatility_expansion, volatility_compression, trending_strong, trending_weak, range_bound,
  MarketEnvironmentMetrics,
}

-- Some ticks arrive, or it is a killzone; and neither the volatility nor the volume is a shock.
abbrev pub IsLive : MarketEnvironmentMetrics → Bool → Type 0
IsLive m is_killzone = (ltb_ℚ m.tick_velocity_per_second (lit 5 1) ≡ false) ⊎ (is_killzone ≡ true)

abbrev pub IsOrderly : MarketEnvironmentMetrics → Bool → Type 0
IsOrderly m is_killzone = IsLive m is_killzone × (ltb_ℚ (lit 35 1) m.volume_z_score ≡ false)

-- The regimes, each by the intervals of its metrics.
pub data Describes (m : MarketEnvironmentMetrics) (is_killzone : Bool)
    : DetailedRegimeType → Type 0 where
  quiet :
      ltb_ℚ m.tick_velocity_per_second (lit 5 1) ≡ true
      → is_killzone ≡ false
      → Describes m is_killzone illiquid_dead_zone
  volatility_shock :
      IsLive m is_killzone
      → ltb_ℚ (lit 3 0) m.volatility_ratio ≡ true
      → Describes m is_killzone post_news_chaos
  volume_shock :
      IsLive m is_killzone
      → ltb_ℚ (lit 35 1) m.volume_z_score ≡ true
      → Describes m is_killzone post_news_chaos
  accelerating :
      IsOrderly m is_killzone
      → ltb_ℚ (lit 14 1) m.volatility_ratio ≡ true
      → ltb_ℚ (lit 3 0) m.volatility_ratio ≡ false
      → ltb_ℚ (lit 15 1) m.trend_strength_adx ≡ true
      → Describes m is_killzone momentum_acceleration
  expanding :
      IsOrderly m is_killzone
      → ltb_ℚ (lit 14 1) m.volatility_ratio ≡ true
      → ltb_ℚ (lit 3 0) m.volatility_ratio ≡ false
      → ltb_ℚ (lit 15 1) m.trend_strength_adx ≡ false
      → Describes m is_killzone volatility_expansion
  compressed :
      IsOrderly m is_killzone
      → ltb_ℚ m.volatility_ratio (lit 75 2) ≡ true
      → Describes m is_killzone volatility_compression
  strong :
      IsOrderly m is_killzone
      → ltb_ℚ m.volatility_ratio (lit 75 2) ≡ false
      → ltb_ℚ (lit 14 1) m.volatility_ratio ≡ false
      → ltb_ℚ (lit 2 0) m.trend_strength_adx ≡ true
      → Describes m is_killzone trending_strong
  weak :
      IsOrderly m is_killzone
      → ltb_ℚ m.volatility_ratio (lit 75 2) ≡ false
      → ltb_ℚ (lit 14 1) m.volatility_ratio ≡ false
      → ltb_ℚ m.trend_strength_adx (lit 5 1) ≡ false
      → ltb_ℚ (lit 2 0) m.trend_strength_adx ≡ false
      → Describes m is_killzone trending_weak
  ranging :
      IsOrderly m is_killzone
      → ltb_ℚ m.volatility_ratio (lit 75 2) ≡ false
      → ltb_ℚ (lit 14 1) m.volatility_ratio ≡ false
      → ltb_ℚ m.trend_strength_adx (lit 5 1) ≡ true
      → Describes m is_killzone range_bound
