-- ===== src/Analytics/Swings/Atr.antt =====
-- `_calculate_atr`: the average true range after each candle.
use apex_xauusd_engine.Prelude.{ℕ, ◌-◌, Option, none, some, List, [], ◌∷◌, ◌++◌, length, drop}
use apex_xauusd_engine.Prelude.Rat.{
  ℚ, ltb_ℚ, zero_ℚ, of_ℕ, lit, ◌+ℚ◌, ◌-ℚ◌, ◌/ℚ◌, max_ℚ, abs_ℚ, neg_ℚ,
}
use apex_xauusd_engine.Analytics.Swings.Types.{OhlcvCandle, candle_range}

-- `sum(values)`
unfoldable pub sum_from : ℚ → List ℚ → ℚ
unfolding ◌+ℚ◌
sum_from total [] = total
sum_from total (x ∷ xs) = sum_from (total +ℚ x) xs

-- `sum(values) / len(values)`
unfoldable pub mean : List ℚ → ℚ
unfolding sum_from ◌/ℚ◌
mean xs = sum_from zero_ℚ xs /ℚ of_ℕ (length xs)

unfoldable pub true_range : Option ℚ → OhlcvCandle → ℚ
unfolding candle_range ltb_ℚ ◌-ℚ◌ neg_ℚ
true_range none c = candle_range c
true_range (some previous_close) c =
    max_ℚ (max_ℚ (c.high_p -ℚ c.low_p) (abs_ℚ (c.high_p -ℚ previous_close)))
      (abs_ℚ (c.low_p -ℚ previous_close))

-- `1e-9`
abbrev pub tiny : ℚ
tiny = lit 1 9

-- The loop, over the ranges so far and the previous close.
unfoldable pub atr_from : ℕ → List ℚ → Option ℚ → List OhlcvCandle → List ℚ
unfolding true_range mean ltb_ℚ
atr_from period ranges previous_close [] = []
atr_from period ranges previous_close (c ∷ cs) =
    let ranges' = ranges ++ max_ℚ (true_range previous_close c) tiny ∷ [] in
    mean (drop (length ranges' - period) ranges') ∷ atr_from period ranges' (some c.close_p) cs

unfoldable pub calculate_atr : ℕ → List OhlcvCandle → List ℚ
unfolding atr_from
calculate_atr period candles = atr_from period [] none candles
