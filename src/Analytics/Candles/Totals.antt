-- ===== src/Analytics/Candles/Totals.antt =====
-- Candles that src/analytics/candle_builder.py makes of any sequence of ticks.
use apex_xauusd_engine.Prelude.{
  ℕ, suc, ◌+◌, ◌≡◌, refl, true, false, Option, none, some, List, [], ◌∷◌, arith, inl, inr,
  Bool-cases, length, All, leb,
}
use apex_xauusd_engine.Prelude.Rat.Extrema.{le-max_left, le-max_right, min-le_left, min-le_right}
use apex_xauusd_engine.Prelude.Rat.{ℚ, ltb_ℚ, max_ℚ, min_ℚ}
use apex_xauusd_engine.Prelude.Rat.Order.{lt_irrefl, le_trans}
use apex_xauusd_engine.Domain.{TickNode, mid, CandleNode, Timeframe}
use apex_xauusd_engine.Analytics.Candles.{
  CandleBuilder, new_builder, new_candle, extend_candle, next_candles, process_tick, add_closed,
  process_ticks,
}

-- The open and the close lie between the low and the high.
pub record IsCandle (c : CandleNode) : Type 0 where
  pub low_le_open : ltb_ℚ c.open_p c.low_p ≡ false
  pub low_le_close : ltb_ℚ c.close_p c.low_p ≡ false
  pub open_le_high : ltb_ℚ c.high_p c.open_p ≡ false
  pub close_le_high : ltb_ℚ c.high_p c.close_p ≡ false

new-IsCandle :
    (b : CandleBuilder) (t : ℕ) (price : ℚ) (volume : ℕ) → IsCandle (new_candle b t price volume)
unfolding new_candle
new-IsCandle b t price volume = record {
  low_le_open = lt_irrefl price;
  low_le_close = lt_irrefl price;
  open_le_high = lt_irrefl price;
  close_le_high = lt_irrefl price;
}

extend-IsCandle : (tick : TickNode) (c : CandleNode) → IsCandle c → IsCandle (extend_candle tick c)
extend-IsCandle tick c k = record {
  low_le_open =
      le_trans (min_ℚ c.low_p (mid tick)) c.low_p c.open_p (min-le_left c.low_p (mid tick))
        k.low_le_open;
  low_le_close = min-le_right c.low_p (mid tick);
  open_le_high =
      le_trans c.open_p c.high_p (max_ℚ c.high_p (mid tick)) k.open_le_high
        (le-max_left c.high_p (mid tick));
  close_le_high = le-max_right c.high_p (mid tick);
}

abbrev pub IsActive : Option CandleNode → Type 0
IsActive none = Unit
IsActive (some c) = IsCandle c

next-IsCandle :
    (b : CandleBuilder) (tick : TickNode) (o : Option CandleNode)
    → IsActive o
    → IsActive (next_candles b tick o).0 × IsCandle (next_candles b tick o).1
unfolding next_candles
next-IsCandle b tick none k = (tt, new-IsCandle b _ _ _)
next-IsCandle b tick (some c) k =
    elim (Bool-cases (leb (c.start_time + b.interval) tick.timestamp)) [
      | inl e ↦ rw e (
        record {
          low_le_open = k.low_le_open;
          low_le_close = k.low_le_close;
          open_le_high = k.open_le_high;
          close_le_high = k.close_le_high;
        },
        new-IsCandle b _ _ _,
      )
      | inr e ↦ rw e (tt, extend-IsCandle tick c k)
    ]

-- The ticks and the volume of candles.
pub total : (CandleNode → ℕ) → List CandleNode → ℕ
total f [] = 0
total f (c ∷ cs) = f c + total f cs

pub total_active : (CandleNode → ℕ) → Option CandleNode → ℕ
total_active f none = 0
total_active f (some c) = f c

pub total_volume : List TickNode → ℕ
total_volume [] = 0
total_volume (t ∷ ts) = t.volume + total_volume ts

-- What a run of the builder makes of its ticks.
pub record IsRun (ticks : List TickNode) (b : CandleBuilder) (closed : List CandleNode)
    (end : CandleBuilder) : Type 0 where
  pub candles : All IsCandle closed
  pub all_closed : All (λ c. c.is_closed ≡ true) closed
  pub active_candle : IsActive end.active
  pub every_tick :
      total (λ c. c.ticks_count) closed + total_active (λ c. c.ticks_count) end.active
      ≡ total_active (λ c. c.ticks_count) b.active + length ticks
  pub every_volume :
      total (λ c. c.volume) closed + total_active (λ c. c.volume) end.active
      ≡ total_active (λ c. c.volume) b.active + total_volume ticks

next-counts :
    (b : CandleBuilder) (tick : TickNode) (o : Option CandleNode)
    → (total_active (λ c. c.ticks_count) (next_candles b tick o).0
          + (next_candles b tick o).1.ticks_count
        ≡ suc (total_active (λ c. c.ticks_count) o))
      × (total_active (λ c. c.volume) (next_candles b tick o).0 + (next_candles b tick o).1.volume
          ≡ total_active (λ c. c.volume) o + tick.volume)
unfolding next_candles new_candle total_active
next-counts b tick none = ground arith
next-counts b tick (some c) = ground arith

next-is_closed :
    (b : CandleBuilder) (tick : TickNode) (o : Option CandleNode)
    → All (λ c. c.is_closed ≡ true) (add_closed (next_candles b tick o).0 [])
unfolding next_candles
next-is_closed b tick none = tt
next-is_closed b tick (some c) =
    elim (Bool-cases (leb (c.start_time + b.interval) tick.timestamp)) [
      | inl e ↦ rw e (refl, tt)
      | inr e ↦ rw e tt
    ]

add_closed-All :
    (P : CandleNode → Type 0) (o : Option CandleNode) (cs : List CandleNode)
    → All P (add_closed o [])
    → All P cs
    → All P (add_closed o cs)
add_closed-All P none cs h k = k
add_closed-All P (some c) cs (h, _) k = (h, k)

active-All : (o : Option CandleNode) → IsActive o → All IsCandle (add_closed o [])
active-All none k = tt
active-All (some c) k = (k, tt)

total-add_closed :
    (f : CandleNode → ℕ) (o : Option CandleNode) (cs : List CandleNode)
    → total f (add_closed o cs) ≡ total_active f o + total f cs
unfolding total total_active
total-add_closed f none cs = omega arith
total-add_closed f (some c) cs = refl

process_ticks_of-IsRun :
    (ticks : List TickNode) (b : CandleBuilder)
    → IsActive b.active
    → IsRun ticks b (process_ticks ticks b).0 (process_ticks ticks b).1
unfolding process_ticks process_tick total total_active total_volume
process_ticks_of-IsRun [] b k = record {
  candles = tt;
  all_closed = tt;
  active_candle = k;
  every_tick = omega arith;
  every_volume = omega arith;
}
process_ticks_of-IsRun (tick ∷ ticks) b k =
    let (closed, active) = next_candles b tick b.active in
    let (closed_ok, active_ok) = next-IsCandle b tick b.active k in
    let rest = process_ticks_of-IsRun ticks (record b { active = some active }) active_ok in
    record {
      candles = add_closed-All IsCandle closed _ (active-All closed closed_ok) rest.candles;
      all_closed = add_closed-All _ closed _ (next-is_closed b tick b.active) rest.all_closed;
      active_candle = rest.active_candle;
      every_tick = omega (
        arith,
        total-add_closed (λ c. c.ticks_count) closed
            (process_ticks ticks (record b { active = some active })).0,
        rest.every_tick,
        next-counts b tick b.active,
      );
      every_volume = omega (
        arith,
        total-add_closed (λ c. c.volume) closed
            (process_ticks ticks (record b { active = some active })).0,
        rest.every_volume,
        next-counts b tick b.active,
      );
    }

-- For any sequence of ticks from the start, each candle has its open and close between its low and
-- high, the finished ones are marked closed, and the candles together, the active one included,
-- hold exactly as many ticks and as much volume as the sequence.
pub process_ticks-IsRun :
    (symbol : ℕ) (timeframe : Timeframe) (interval : ℕ) (ticks : List TickNode)
    → let b = new_builder symbol timeframe interval in
      IsRun ticks b (process_ticks ticks b).0 (process_ticks ticks b).1
unfolding new_builder
process_ticks-IsRun symbol timeframe interval ticks = process_ticks_of-IsRun ticks _ tt
