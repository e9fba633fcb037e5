-- ===== src/Domain/Market.antt =====
-- src/core/domain/market_data.py and src/core/domain/structure_models.py.
use apex_xauusd_engine.Prelude.{ℕ, Bool, Option}
use apex_xauusd_engine.Prelude.Rat.{ℚ, lit, ◌+ℚ◌, ◌-ℚ◌, ◌/ℚ◌}
use apex_xauusd_engine.Domain.Constants.{EventPriority}

-- The timeframes that the code tells apart by their texts: `1m`, and so on; `h1` is `1h` or `h1`, `d1`
-- is `1d`, `d1` or `daily`, and `unnamed` is `unknown`. Any other text is `other`.
pub data Timeframe : Type 0 where
  m1 m3 m5 m15 m30 h1 h4 d1 w1 unnamed : Timeframe
  other : ℕ → Timeframe

pub record TickNode : Type 0 where
  pub symbol : ℕ
  pub timestamp : ℕ
  pub bid : ℚ
  pub ask : ℚ
  pub volume : ℕ
  pub sequence_id : ℕ
  pub trace_id : ℕ
  -- `none` is the empty text
  pub correlation_id : Option ℕ
  pub priority : EventPriority

unfoldable pub mid : TickNode → ℚ
mid t = (t.bid +ℚ t.ask) /ℚ lit 2 0

unfoldable pub spread : TickNode → ℚ
spread t = t.ask -ℚ t.bid

pub record CandleNode : Type 0 where
  pub symbol : ℕ
  pub timeframe : Timeframe
  pub start_time : ℕ
  pub end_time : ℕ
  pub open_p : ℚ
  pub high_p : ℚ
  pub low_p : ℚ
  pub close_p : ℚ
  pub volume : ℕ
  pub ticks_count : ℕ
  pub is_closed : Bool
  pub sequence_id : ℕ
  pub trace_id : ℕ
  pub correlation_id : Option ℕ
  pub priority : EventPriority

pub data StructuralPointType : Type 0 where
  swing_high swing_low : StructuralPointType

pub data StructureBreakType : Type 0 where
  bos mss choch : StructureBreakType

-- The identifier of a swing point holds its kind, timeframe and counter; the timeframe stands in
-- the record too.
pub record SwingPoint : Type 0 where
  pub id : ℕ
  pub symbol : ℕ
  pub timeframe : Timeframe
  pub point_type : StructuralPointType
  pub timestamp : ℕ
  pub price : ℚ
  pub confidence : ℚ

pub record LiquidityPool : Type 0 where
  pub id : ℕ
  pub timeframe : Timeframe
  pub is_buy_side : Bool
  pub is_equal_structure : Bool
  pub ceiling_price : ℚ
  pub floor_price : ℚ
  pub accumulated_touches : ℕ
  pub is_swept : Bool
  pub sweep_timestamp : Option ℕ
