-- ===== src/Analytics/Structure/Levels.antt =====
-- Levels, pivots and breaks of src/analytics/structure_engine.py as relations.
use apex_xauusd_engine.Prelude.{
  length, ◌<◌, ◌&&◌, false, ◌≡◌, true, false, Option, none, some, List, [], ◌∷◌, ◌++◌,
}
use apex_xauusd_engine.Prelude.Rat.{ltb_ℚ}
use apex_xauusd_engine.Domain.{
  CandleNode, SwingPoint, swing_high, swing_low, StructureBreakType, bos, mss,
}
use apex_xauusd_engine.Analytics.Structure.{StructureEngine, Break}

-- A break against a standing opposite level is a break of structure, else a shift.
pub data HasType : Option SwingPoint → StructureBreakType → Type 0 where
  opposed : {p : SwingPoint} → HasType (some p) bos
  unopposed : HasType none mss

-- A level before a close, what the close reports of it, and the level after it.
pub data HighStep (c : CandleNode) (opposite : Option SwingPoint)
    : Option SwingPoint → List Break → Option SwingPoint → Type 0 where
  no_high : HighStep c opposite none [] none
  high_holds :
      {p : SwingPoint} → ltb_ℚ p.price c.close_p ≡ false → HighStep c opposite (some p) [] (some p)
  high_broken :
      {p : SwingPoint} {t : StructureBreakType}
      → ltb_ℚ p.price c.close_p ≡ true
      → HasType opposite t
      → HighStep c opposite
          (some p)
          (record { break_type = t; level = p.price; at = c.end_time } ∷ [])
          none

pub data LowStep (c : CandleNode) (opposite : Option SwingPoint)
    : Option SwingPoint → List Break → Option SwingPoint → Type 0 where
  no_low : LowStep c opposite none [] none
  low_holds :
      {p : SwingPoint} → ltb_ℚ c.close_p p.price ≡ false → LowStep c opposite (some p) [] (some p)
  low_broken :
      {p : SwingPoint} {t : StructureBreakType}
      → ltb_ℚ c.close_p p.price ≡ true
      → HasType opposite t
      → LowStep c opposite
          (some p)
          (record { break_type = t; level = p.price; at = c.end_time } ∷ [])
          none

-- The middle one of three candles has the price of its kind, strictly beyond its neighbours'.
pub data IsExtreme (c1 c2 c3 : CandleNode) : SwingPoint → Type 0 where
  peak :
      {p : SwingPoint}
      → p.point_type ≡ swing_high
      → p.price ≡ c2.high_p
      → ltb_ℚ c1.high_p c2.high_p ≡ true
      → ltb_ℚ c3.high_p c2.high_p ≡ true
      → IsExtreme c1 c2 c3 p
  trough :
      {p : SwingPoint}
      → p.point_type ≡ swing_low
      → p.price ≡ c2.low_p
      → ltb_ℚ c2.low_p c1.low_p ≡ true
      → ltb_ℚ c2.low_p c3.low_p ≡ true
      → IsExtreme c1 c2 c3 p

-- The pivot is that of the last three candles.
abbrev pub IsPivotOf : List CandleNode → SwingPoint → Type 0
IsPivotOf candles p =
    (earlier : List CandleNode) × (c1 : CandleNode) × (c2 : CandleNode) × (c3 : CandleNode)
    × (candles ≡ earlier ++ c1 ∷ c2 ∷ c3 ∷ [])
    × (p.timestamp ≡ c2.end_time)
    × IsExtreme c1 c2 c3 p

-- There are fewer than three candles, or the middle one of the last three is no extreme.
pub data HasNoPivot (candles : List CandleNode) : Type 0 where
  few : length candles < 3 → HasNoPivot candles
  flat :
      (earlier : List CandleNode) (c1 c2 c3 : CandleNode)
      → candles ≡ earlier ++ c1 ∷ c2 ∷ c3 ∷ []
      → (ltb_ℚ c1.high_p c2.high_p && ltb_ℚ c3.high_p c2.high_p) ≡ false
      → (ltb_ℚ c2.low_p c1.low_p && ltb_ℚ c2.low_p c3.low_p) ≡ false
      → HasNoPivot candles

-- The structural levels after a pivot, which replaces the one of its kind.
pub data Marks (candles : List CandleNode) (high low : Option SwingPoint)
    : Option SwingPoint → Option SwingPoint → Option SwingPoint → Type 0 where
  unmarked : HasNoPivot candles → Marks candles high low none high low
  marks_high :
      {p : SwingPoint}
      → p.point_type ≡ swing_high
      → IsPivotOf candles p
      → Marks candles high low (some p) (some p) low
  marks_low :
      {p : SwingPoint}
      → p.point_type ≡ swing_low
      → IsPivotOf candles p
      → Marks candles high low (some p) high (some p)

-- What a closed candle reports and leaves behind.
pub record IsIngested (c : CandleNode) (e : StructureEngine) (pivot : Option SwingPoint)
    (breaks : List Break) (e' : StructureEngine) : Type 0 where
  pub high : Option SwingPoint
  pub low : Option SwingPoint
  pub highs : List Break
  pub lows : List Break
  pub marks : Marks e'.candles e.current_structural_high e.current_structural_low pivot high low
  pub reported : breaks ≡ highs ++ lows
  pub high_step : HighStep c low high highs e'.current_structural_high
  pub low_step : LowStep c e'.current_structural_high low lows e'.current_structural_low
