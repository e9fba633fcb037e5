-- ===== src/Analytics/Structure.antt =====
-- src/analytics/structure_engine.py: `DeterministicStructureEngine`.
pub mod Levels
pub mod Breaks
use apex_xauusd_engine.Prelude.{
  ℕ, suc, ◌-◌, Bool, true, false, ◌&&◌, Option, none, some, List, [], ◌∷◌, ◌++◌, if◌then◌else◌,
  length, drop, is_some, ltb,
}
use apex_xauusd_engine.Prelude.Rat.{ℚ, ltb_ℚ, lit}
use apex_xauusd_engine.Domain.{
  CandleNode, SwingPoint, StructuralPointType, swing_high, swing_low, StructureBreakType, bos, mss,
  Timeframe,
}

pub record StructureEngine : Type 0 where
  pub timeframe : Timeframe
  pub lookback : ℕ
  pub candles : List CandleNode
  pub high_pivots : List SwingPoint
  pub low_pivots : List SwingPoint
  pub current_structural_high : Option SwingPoint
  pub current_structural_low : Option SwingPoint
  pub counter : ℕ

-- `__init__`
unfoldable pub new_structure_engine : Timeframe → ℕ → StructureEngine
new_structure_engine timeframe pipeline_lookback_len = record {
  timeframe = timeframe;
  lookback = pipeline_lookback_len;
  candles = [];
  high_pivots = [];
  low_pivots = [];
  current_structural_high = none;
  current_structural_low = none;
  counter = 0;
}

-- The append, and `pop(0)` when the lookback is exceeded.
unfoldable pub remember_candle : CandleNode → StructureEngine → StructureEngine
remember_candle candle e =
    let longer = e.candles ++ candle ∷ [] in
    record e { candles = if ltb e.lookback (length longer) then drop 1 longer else longer }

-- The last three of a list that has three.
abbrev pub last_three : List CandleNode → Option (CandleNode × CandleNode × CandleNode)
last_three [] = none
last_three (a ∷ []) = none
last_three (a ∷ b ∷ []) = none
last_three (a ∷ b ∷ c ∷ []) = some (a, b, c)
last_three (a ∷ b ∷ c ∷ d ∷ rest) = last_three (b ∷ c ∷ d ∷ rest)

abbrev pub pivot_at : StructureEngine → StructuralPointType → CandleNode → ℚ → SwingPoint
pivot_at e point_type c price = record {
  id = suc e.counter;
  symbol = c.symbol;
  timeframe = e.timeframe;
  point_type = point_type;
  timestamp = c.end_time;
  price = price;
  confidence = lit 85 0;
}

unfoldable pub evaluate_local_pivots :
    CandleNode → CandleNode → CandleNode → StructureEngine → Option SwingPoint × StructureEngine
evaluate_local_pivots c1 c2 c3 e =
    let high = pivot_at e swing_high c2 c2.high_p in
    let low = pivot_at e swing_low c2 c2.low_p in
    if ltb_ℚ c1.high_p c2.high_p && ltb_ℚ c3.high_p c2.high_p
    then (
      some high,
      record e {
        counter = suc e.counter;
        high_pivots = e.high_pivots ++ high ∷ [];
        current_structural_high = some high;
      },
    )
    else if ltb_ℚ c2.low_p c1.low_p && ltb_ℚ c2.low_p c3.low_p
    then (
      some low,
      record e {
        counter = suc e.counter;
        low_pivots = e.low_pivots ++ low ∷ [];
        current_structural_low = some low;
      },
    )
    else (none, record e { counter = suc e.counter })

abbrev pub pivots_of :
    Option (CandleNode × CandleNode × CandleNode)
    → StructureEngine
    → Option SwingPoint × StructureEngine
pivots_of none e = (none, e)
pivots_of (some (c1, c2, c3)) e = evaluate_local_pivots c1 c2 c3 e

pub record Break : Type 0 where
  pub break_type : StructureBreakType
  pub level : ℚ
  pub at : ℕ

-- `BOS` if the opposite level is there, else `MSS`
abbrev pub break_type_for : Option SwingPoint → StructureBreakType
break_type_for opposite = if is_some opposite then bos else mss

unfoldable pub break_high :
    CandleNode → Option SwingPoint → StructureEngine → List Break × StructureEngine
break_high candle none e = ([], e)
break_high candle (some p) e =
    if ltb_ℚ p.price candle.close_p
    then (
      record {
        break_type = break_type_for e.current_structural_low;
        level = p.price;
        at = candle.end_time;
      }
          ∷ [],
      record e { current_structural_high = none },
    )
    else ([], e)

unfoldable pub break_low :
    CandleNode → Option SwingPoint → StructureEngine → List Break × StructureEngine
break_low candle none e = ([], e)
break_low candle (some p) e =
    if ltb_ℚ candle.close_p p.price
    then (
      record {
        break_type = break_type_for e.current_structural_high;
        level = p.price;
        at = candle.end_time;
      }
          ∷ [],
      record e { current_structural_low = none },
    )
    else ([], e)

-- The second part of `ingest_candle_close`: the breaks of the high, then of the low.
unfoldable pub verify_breaks : CandleNode → StructureEngine → List Break × StructureEngine
unfolding break_high break_low
verify_breaks candle e =
    let (highs, e') = break_high candle e.current_structural_high e in
    let (lows, e'') = break_low candle e'.current_structural_low e' in (highs ++ lows, e'')

unfoldable pub ingest_candle_close :
    CandleNode → StructureEngine → (Option SwingPoint × List Break) × StructureEngine
unfolding remember_candle evaluate_local_pivots verify_breaks
ingest_candle_close candle e =
    let e1 = remember_candle candle e in
    let (pivot, e2) = pivots_of (last_three e1.candles) e1 in
    let (breaks, e3) = verify_breaks candle e2 in ((pivot, breaks), e3)
