-- ===== src/Tests/RegimeRuns.antt =====
-- The theorems on regimes at concrete inputs.
use apex_xauusd_engine.Prelude.{ℕ, ◌≡◌, ◌↔◌, refl, false, List, [], ◌∷◌, arith, length}
use apex_xauusd_engine.Prelude.Rat.{ℚ, lit, zero_ℚ, of_ℕ, ◌+ℚ◌, ◌-ℚ◌, ◌/ℚ◌, ltb_ℚ}
use apex_xauusd_engine.Domain.{CandleNode}
use apex_xauusd_engine.Analytics.Regime.{
  Statistics, MarketEnvironmentMetrics, new_regime_engine, append_all, volatility_compression,
  classify_regime, regime_for, fallback_metrics, append_candle_metrics, record_candle,
  forget_oldest,
}
use apex_xauusd_engine.Analytics.Regime.Windows.{holding, append_all-latest}
use apex_xauusd_engine.Analytics.Regime.Metrics.{Measures, extract_environment_metrics-Measures}
use apex_xauusd_engine.Analytics.Regime.Regimes.{Describes}
use apex_xauusd_engine.Analytics.Regime.Decision.{classify_regime-Describes}
use apex_xauusd_engine.Tests.Data.{candle_to}

abbrev numbered : ℕ → ℕ → CandleNode
numbered n high = record (candle_to (lit 2000 0)) { end_time = n; volume = n; high_p = lit high 0 }

-- Seven candles, two more than a period of 1 keeps.
abbrev seven : List CandleNode
seven =
    numbered 1 2000
    ∷ numbered 2 2010
    ∷ numbered 3 2004
    ∷ numbered 4 2005
    ∷ numbered 5 2011
    ∷ numbered 6 2030
    ∷ numbered 7 1991
    ∷ []

append_all-latest_example : append_all seven (new_regime_engine 1) ≡ holding 1 seven
append_all-latest_example = append_all-latest 1 seven

two_forgotten : (append_all seven (new_regime_engine 1)).timestamps ≡ 3 ∷ 4 ∷ 5 ∷ 6 ∷ 7 ∷ []
unfolding append_all append_candle_metrics record_candle forget_oldest new_regime_engine
two_forgotten = refl

abbrev total : List ℚ → ℚ
total [] = zero_ℚ
total (x ∷ xs) = x +ℚ total xs

abbrev differences : List ℚ → List ℚ
differences [] = []
differences (x ∷ []) = []
differences (x ∷ y ∷ xs) = (y -ℚ x) ∷ differences (y ∷ xs)

abbrev statistics : Statistics
statistics = record {
  mean = λ xs. total xs /ℚ of_ℕ (length xs);
  std = λ xs. lit 1 0;
  diff = differences;
  sum = total;
}

extract_environment_metrics-Measures_example :
    Measures statistics (lit 2 0) (append_all seven (new_regime_engine 2))
extract_environment_metrics-Measures_example =
    extract_environment_metrics-Measures statistics (lit 2 0) 2 seven (omega arith)

abbrev narrowing : MarketEnvironmentMetrics
narrowing = record (fallback_metrics (lit 2 0)) { volatility_ratio = lit 5 1 }

classify_regime-Describes_example :
    (((classify_regime narrowing false (new_regime_engine 2)).0 ≡ volatility_compression)
      ↔ Describes narrowing false volatility_compression)
    × ((classify_regime narrowing false (new_regime_engine 2)).1.last_regime
        ≡ (classify_regime narrowing false (new_regime_engine 2)).0)
classify_regime-Describes_example =
    classify_regime-Describes narrowing false (new_regime_engine 2) volatility_compression

narrowing_compressed :
    (classify_regime narrowing false (new_regime_engine 2)).0 ≡ volatility_compression
unfolding classify_regime regime_for ltb_ℚ
narrowing_compressed = refl
