-- ===== src/Analytics/Candles.antt =====
-- src/analytics/candle_builder.py. An interval is a number of microseconds. The fields of the base
-- event that the builder leaves at their defaults are 0, and `NORMAL`.
pub mod Totals
use apex_xauusd_engine.Prelude.{
  ℕ, suc, ◌+◌, Option, true, false, none, some, List, [], ◌∷◌, if◌then◌else◌, leb,
}
use apex_xauusd_engine.Prelude.Rat.{ℚ, max_ℚ, min_ℚ}
use apex_xauusd_engine.Domain.{TickNode, mid, CandleNode, Timeframe, normal}

pub record CandleBuilder : Type 0 where
  pub symbol : ℕ
  pub timeframe : Timeframe
  pub interval : ℕ
  pub active : Option CandleNode

-- `__init__`
unfoldable pub new_builder : ℕ → Timeframe → ℕ → CandleBuilder
new_builder symbol timeframe interval = record {
  symbol = symbol;
  timeframe = timeframe;
  interval = interval;
  active = none;
}

unfoldable pub new_candle : CandleBuilder → ℕ → ℚ → ℕ → CandleNode
new_candle b timestamp price volume = record {
  symbol = b.symbol;
  timeframe = b.timeframe;
  start_time = timestamp;
  end_time = timestamp;
  open_p = price;
  high_p = price;
  low_p = price;
  close_p = price;
  volume = volume;
  ticks_count = 1;
  is_closed = false;
  sequence_id = 0;
  trace_id = 0;
  correlation_id = none;
  priority = normal;
}

abbrev pub extend_candle : TickNode → CandleNode → CandleNode
extend_candle tick c = record c {
  high_p = max_ℚ c.high_p (mid tick);
  low_p = min_ℚ c.low_p (mid tick);
  close_p = mid tick;
  volume = c.volume + tick.volume;
  ticks_count = suc c.ticks_count;
  end_time = tick.timestamp;
}

-- The candle that a tick closes, and the candle that is then active.
unfoldable pub next_candles :
    CandleBuilder → TickNode → Option CandleNode → Option CandleNode × CandleNode
unfolding new_candle
next_candles b tick none = (none, new_candle b tick.timestamp (mid tick) tick.volume)
next_candles b tick (some c) =
    if leb (c.start_time + b.interval) tick.timestamp
    then (some (record c { is_closed = true }), new_candle b tick.timestamp (mid tick) tick.volume)
    else (none, extend_candle tick c)

unfoldable pub process_tick :
    TickNode → CandleBuilder → (Option CandleNode × CandleNode) × CandleBuilder
unfolding next_candles
process_tick tick b =
    let candles = next_candles b tick b.active in (candles, record b { active = some candles.1 })

abbrev pub add_closed : Option CandleNode → List CandleNode → List CandleNode
add_closed none cs = cs
add_closed (some c) cs = c ∷ cs

-- The candles that a sequence of ticks closes, and the builder after it.
unfoldable pub process_ticks : List TickNode → CandleBuilder → List CandleNode × CandleBuilder
unfolding process_tick
process_ticks [] b = ([], b)
process_ticks (tick ∷ ticks) b =
    let ((closed, active), b') = process_tick tick b in
    let (later, end) = process_ticks ticks b' in (add_closed closed later, end)
