-- ===== src/Analytics/Regime.antt =====
-- src/analytics/regime_detection.py and src/core/domain/regime_models.py. The statistics that the
-- engine takes from numpy are a parameter. The mean of no numbers, which numpy calls NaN, is not a
-- rational: only a baseline period of 0 asks for it.
pub mod Windows
pub mod Metrics
pub mod Regimes
pub mod Decision
use apex_xauusd_engine.Prelude.{
  ℕ, ◌-◌, ◌*◌, Bool, true, false, not, ◌&&◌, ◌||◌, Option, none, some, List, [], ◌∷◌, ◌++◌, map,
  if◌then◌else◌, ltb, ◌==◌, length, take, drop, get_last?, is_empty,
}
use apex_xauusd_engine.Prelude.Rat.{
  ℚ, of_ℕ, lit, zero_ℚ, ltb_ℚ, max_ℚ, min_ℚ, abs_ℚ, ◌-ℚ◌, ◌*ℚ◌, ◌/ℚ◌,
}
use apex_xauusd_engine.Domain.{CandleNode}

pub data DetailedRegimeType : Type 0 where
  illiquid_dead_zone post_news_chaos momentum_acceleration volatility_expansion : DetailedRegimeType
  volatility_compression trending_strong trending_weak range_bound : DetailedRegimeType

pub record MarketEnvironmentMetrics : Type 0 where
  pub volatility_ratio : ℚ
  pub tick_velocity_per_second : ℚ
  pub mean_candle_spread_pips : ℚ
  pub wick_expansion_coefficient : ℚ
  pub trend_strength_adx : ℚ
  pub volume_z_score : ℚ
  pub confidence_score : ℚ
  pub regime_decay_factor : ℚ

-- `np.mean`, `np.std`, `np.diff` and `np.sum`
pub record Statistics : Type 0 where
  pub mean : List ℚ → ℚ
  pub std : List ℚ → ℚ
  pub diff : List ℚ → List ℚ
  pub sum : List ℚ → ℚ

pub record RegimeEngine : Type 0 where
  pub period : ℕ
  pub candle_spreads : List ℚ
  pub candle_volumes : List ℕ
  pub tick_counts : List ℕ
  pub timestamps : List ℕ
  pub last_regime : DetailedRegimeType
  pub confidence : ℚ

-- `__init__`
unfoldable pub new_regime_engine : ℕ → RegimeEngine
new_regime_engine baseline_period = record {
  period = baseline_period;
  candle_spreads = [];
  candle_volumes = [];
  tick_counts = [];
  timestamps = [];
  last_regime = illiquid_dead_zone;
  confidence = lit 1 0;
}

unfoldable pub spread_of : CandleNode → ℚ
spread_of c = c.high_p -ℚ c.low_p

-- The four lists with the metrics of a candle at their ends.
unfoldable pub record_candle : CandleNode → RegimeEngine → RegimeEngine
record_candle c e = record e {
  candle_spreads = e.candle_spreads ++ spread_of c ∷ [];
  candle_volumes = e.candle_volumes ++ c.volume ∷ [];
  tick_counts = e.tick_counts ++ c.ticks_count ∷ [];
  timestamps = e.timestamps ++ c.end_time ∷ [];
}

-- `pop(0)` on each of the four lists, none of which is empty when it is called
unfoldable pub forget_oldest : RegimeEngine → RegimeEngine
forget_oldest e = record e {
  candle_spreads = drop 1 e.candle_spreads;
  candle_volumes = drop 1 e.candle_volumes;
  tick_counts = drop 1 e.tick_counts;
  timestamps = drop 1 e.timestamps;
}

unfoldable pub append_candle_metrics : CandleNode → RegimeEngine → RegimeEngine
unfolding record_candle forget_oldest
append_candle_metrics c e =
    let recorded = record_candle c e in
    if ltb (e.period * 5) (length recorded.candle_spreads) then forget_oldest recorded else recorded

-- A run of candles.
unfoldable pub append_all : List CandleNode → RegimeEngine → RegimeEngine
unfolding append_candle_metrics
append_all [] e = e
append_all (c ∷ cs) e = append_all cs (append_candle_metrics c e)

-- `xs[-n:]`, where `-0` is 0
abbrev pub last_part {ℓ} : {A : Type ℓ} → ℕ → List A → List A
last_part n xs = if n == 0 then xs else drop (length xs - n) xs

-- `xs[:-n]`
abbrev pub first_part {ℓ} : {A : Type ℓ} → ℕ → List A → List A
first_part n xs = if n == 0 then [] else take (length xs - n) xs

abbrev pub clip_value : ℚ → ℚ → ℚ → ℚ
clip_value val low high = max_ℚ (min_ℚ val high) low

-- The metrics of a window that is still too short.
abbrev pub fallback_metrics : ℚ → MarketEnvironmentMetrics
fallback_metrics velocity = record {
  volatility_ratio = lit 1 0;
  tick_velocity_per_second = velocity;
  mean_candle_spread_pips = zero_ℚ;
  wick_expansion_coefficient = zero_ℚ;
  trend_strength_adx = zero_ℚ;
  volume_z_score = zero_ℚ;
  confidence_score = lit 50 0;
  regime_decay_factor = lit 1 0;
}

unfoldable pub vol_ratio : Statistics → RegimeEngine → ℚ
vol_ratio np e =
    let recent_spreads = last_part e.period e.candle_spreads in
    let historical_spreads =
      if ltb e.period (length e.candle_spreads)
      then first_part e.period e.candle_spreads
      else recent_spreads in
    let mean_recent = np.mean recent_spreads in
    let mean_hist =
      if is_empty historical_spreads then mean_recent else np.mean historical_spreads in
    if ltb_ℚ zero_ℚ mean_hist then mean_recent /ℚ mean_hist else lit 1 0

-- `none` is the error of `recent_volumes[-1]` on an empty list
unfoldable pub vol_z : Statistics → RegimeEngine → Option ℚ
vol_z np e =
    let recent_volumes = map of_ℕ (last_part e.period e.candle_volumes) in
    if ltb_ℚ zero_ℚ (np.std recent_volumes)
    then elim (get_last? recent_volumes) [
      | none ↦ none
      | some v ↦ some ((v -ℚ np.mean recent_volumes) /ℚ np.std recent_volumes)
    ]
    else some zero_ℚ

unfoldable pub trend_coefficient : Statistics → RegimeEngine → ℚ
trend_coefficient np e =
    let diffs = np.diff (last_part e.period e.candle_spreads) in
    if ltb 0 (length diffs) then np.sum diffs /ℚ of_ℕ (length diffs) else zero_ℚ

abbrev pub metrics_of : Statistics → RegimeEngine → ℚ → ℚ → MarketEnvironmentMetrics
metrics_of np e velocity z = record {
  volatility_ratio = vol_ratio np e;
  tick_velocity_per_second = velocity;
  mean_candle_spread_pips = np.mean (last_part e.period e.candle_spreads) *ℚ lit 10 0;
  wick_expansion_coefficient = trend_coefficient np e;
  trend_strength_adx = abs_ℚ (trend_coefficient np e) *ℚ lit 50 0;
  volume_z_score = z;
  confidence_score = clip_value (lit 100 0 -ℚ vol_ratio np e *ℚ lit 10 0) (lit 10 0) (lit 100 0);
  regime_decay_factor = lit 95 2;
}

-- `none` is an IndexError
unfoldable pub extract_environment_metrics :
    Statistics → ℚ → RegimeEngine → Option MarketEnvironmentMetrics
unfolding vol_z vol_ratio trend_coefficient
extract_environment_metrics np velocity e =
    if ltb (length e.candle_spreads) e.period
    then some (fallback_metrics velocity)
    else elim (vol_z np e) [ none ↦ none | some z ↦ some (metrics_of np e velocity z) ]

unfoldable pub regime_for : MarketEnvironmentMetrics → Bool → DetailedRegimeType
regime_for m is_killzone =
    if ltb_ℚ m.tick_velocity_per_second (lit 5 1) && not is_killzone
    then illiquid_dead_zone
    else if ltb_ℚ (lit 3 0) m.volatility_ratio || ltb_ℚ (lit 35 1) m.volume_z_score
    then post_news_chaos
    else if ltb_ℚ (lit 14 1) m.volatility_ratio
    then if ltb_ℚ (lit 15 1) m.trend_strength_adx
      then momentum_acceleration
      else volatility_expansion
    else if ltb_ℚ m.volatility_ratio (lit 75 2)
    then volatility_compression
    else if ltb_ℚ (lit 2 0) m.trend_strength_adx
    then trending_strong
    else if ltb_ℚ m.trend_strength_adx (lit 5 1)
    then range_bound
    else trending_weak

unfoldable pub classify_regime :
    MarketEnvironmentMetrics → Bool → RegimeEngine → DetailedRegimeType × RegimeEngine
unfolding regime_for
classify_regime m is_killzone e =
    let regime = regime_for m is_killzone in (regime, record e { last_regime = regime })
