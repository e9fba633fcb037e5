-- ===== src/Tests/MarketRuns.antt =====
-- The theorems on the event bus, the candles, the liquidity pools and the simulated broker at
-- concrete inputs.
use apex_xauusd_engine.Prelude.{
  ℕ, ◌+◌, ◌≡◌, refl, Bool, true, false, some, List, [], ◌∷◌, ◌++◌, map, arith, is_some, length,
  ◌==◌,
}
use apex_xauusd_engine.Prelude.Rat.{ℚ, ltb_ℚ, lit, zero_ℚ}
use apex_xauusd_engine.Domain.{
  TickNode, mid, SwingPoint, swing_high, m1, mss, critical, low, high, EventPriority,
}
use apex_xauusd_engine.Events.Bus.{
  EngineEventType, market_tick, order_filled, system_critical_halt, BaseEvent, EventBus, queued,
  drain,
}
use apex_xauusd_engine.Events.Bus.Order.{in_delivery_order}
use apex_xauusd_engine.Events.Bus.Delivery.{
  publish_all, entries_from, all_calls, all_failures, drain-publish_all,
}
use apex_xauusd_engine.Analytics.Candles.{new_builder, process_ticks}
use apex_xauusd_engine.Analytics.Candles.Totals.{IsRun, process_ticks-IsRun}
use apex_xauusd_engine.Analytics.Liquidity.{new_engine, evaluate_tick_sweeps}
use apex_xauusd_engine.Analytics.Liquidity.Views.{nearest_active_pool}
use apex_xauusd_engine.Analytics.Liquidity.Nearest.{Reports, nearest_active_pool-Reports}
use apex_xauusd_engine.Analytics.Liquidity.Sweeps.{
  Call, pivot_closed, tick_received, after_calls, Swept, evaluate_tick_sweeps-Swept,
}
use apex_xauusd_engine.Analytics.Sessions.{time_of, new_session_engine, evaluate_session_context}
use apex_xauusd_engine.Analytics.Sessions.Hours.{Timetable, evaluate_session_context-Timetable}
use apex_xauusd_engine.Analytics.Structure.{
  StructureEngine, remember_candle, verify_breaks, break_high, break_low, new_structure_engine,
  ingest_candle_close,
}
use apex_xauusd_engine.Backtest.Fills.{
  FillEngine, new_fill_engine, fill_market_order, Simulator, evaluate_working_orders,
}
use apex_xauusd_engine.Backtest.Fills.Costs.{IsAdverse, fill_market_order-IsAdverse}
use apex_xauusd_engine.Backtest.Fills.Working.{
  touched, untouched, fill_at_entry, evaluate_working_orders-touched,
}
use apex_xauusd_engine.Tests.Data.{gold, tick_at, request_for, candle_to}

abbrev event_of : ℕ → EventPriority → BaseEvent
event_of n priority = record {
  timestamp = n;
  sequence_id = n;
  trace_id = n;
  correlation_id = n;
  priority = priority;
}

abbrev burst : List (EngineEventType × BaseEvent)
burst =
    (market_tick, event_of 1 low)
    ∷ (order_filled, event_of 2 high)
    ∷ (system_critical_halt, event_of 3 critical)
    ∷ (order_filled, event_of 4 high)
    ∷ []

abbrev bus : EventBus
bus = record {
  max_queue_size = 10;
  subscribers = λ t. 1 ∷ 2 ∷ [];
  priority_queue = [];
  publish_sequence = 0;
  handler_failure_count = 0;
  is_running = true;
}

-- The first handler raises.
abbrev first_raises : ℕ → BaseEvent → Bool
first_raises h e = h == 1

drain-publish_all_example :
    let delivered = in_delivery_order (entries_from 0 burst) in
    (b' : EventBus) × (publish_all burst bus ≡ queued b')
    × ((drain first_raises b'.priority_queue b').0 ≡ all_calls bus.subscribers delivered)
    × ((drain first_raises b'.priority_queue b').1.handler_failure_count
        ≡ 0 + all_failures first_raises bus.subscribers delivered)
    × ((drain first_raises b'.priority_queue b').1.priority_queue ≡ [])
drain-publish_all_example = drain-publish_all burst bus first_raises refl refl (omega arith)

abbrev ticks : List TickNode
ticks =
    tick_at 1 (lit 1999 0) (lit 2000 0)
    ∷ tick_at 30 (lit 2001 0) (lit 2002 0)
    ∷ tick_at 61 (lit 1998 0) (lit 1999 0)
    ∷ []

process_ticks-IsRun_example :
    IsRun ticks
      (new_builder gold m1 60)
      (process_ticks ticks (new_builder gold m1 60)).0
      (process_ticks ticks (new_builder gold m1 60)).1
process_ticks-IsRun_example = process_ticks-IsRun gold m1 60 ticks

abbrev high_at : ℚ → SwingPoint
high_at price = record {
  id = 1;
  symbol = gold;
  timeframe = m1;
  point_type = swing_high;
  timestamp = 1;
  price = price;
  confidence = zero_ℚ;
}

abbrev calls : List Call
calls =
    pivot_closed (high_at (lit 2000 0))
    ∷ tick_received (tick_at 1 (lit 1999 0) (lit 2000 0))
    ∷ pivot_closed (high_at (lit 2010 0))
    ∷ []

evaluate_tick_sweeps-Swept_example :
    let e = after_calls calls (new_engine m1 (lit 5 0)) in
    let tick = tick_at 9 (lit 2001 0) (lit 2002 0) in
    Swept tick.timestamp
      (mid tick)
      e.pools
      (evaluate_tick_sweeps tick e).0
      (evaluate_tick_sweeps tick e).1.pools
evaluate_tick_sweeps-Swept_example =
    evaluate_tick_sweeps-Swept m1 (lit 5 0) calls (tick_at 9 (lit 2001 0) (lit 2002 0))

nearest_active_pool-Reports_example :
    let e = after_calls calls (new_engine m1 (lit 5 0)) in
    Reports (lit 2001 0) e.pools (nearest_active_pool (lit 2001 0) e)
nearest_active_pool-Reports_example =
    nearest_active_pool-Reports (lit 2001 0) (after_calls calls (new_engine m1 (lit 5 0)))

abbrev fill_engine : FillEngine
fill_engine = record {
  spread_price = lit 2 1;
  price_unit_per_pip = lit 1 1;
  base_slippage_price = lit 1 2;
  volatility_slippage_price = lit 5 2;
}

fill_market_order-IsAdverse_example :
    IsAdverse
      (request_for 4).direction
      (lit 2000 0)
      (fill_market_order fill_engine (request_for 4) (lit 2000 0) (lit 2 0) 7).average_fill_price
    × (ltb_ℚ
          (fill_market_order fill_engine (request_for 4) (lit 2000 0) (lit 2 0) 7).slippage_pips
          zero_ℚ
        ≡ false)
unfolding new_fill_engine ltb_ℚ
fill_market_order-IsAdverse_example =
    fill_market_order-IsAdverse fill_engine {e = fill_engine} (request_for 4) (lit 2000 0) (lit 2 0)
      7 refl

abbrev simulator : Simulator
simulator = record {
  fill_engine = fill_engine;
  pending_queue = request_for 4 ∷ request_for 5 ∷ [];
  order_history = [];
}

evaluate_working_orders-touched_example :
    let waiting = simulator.pending_queue in
    let fills = map (fill_at_entry fill_engine 7) (touched (lit 2001 0) (lit 1999 0) waiting) in
    (evaluate_working_orders (lit 2001 0) (lit 1999 0) 7 simulator ≡ (
      fills,
      record simulator {
        pending_queue = untouched (lit 2001 0) (lit 1999 0) waiting;
        order_history = [] ++ fills;
      },
    ))
    × (length (touched (lit 2001 0) (lit 1999 0) waiting)
          + length (untouched (lit 2001 0) (lit 1999 0) waiting)
        ≡ length waiting)
evaluate_working_orders-touched_example =
    evaluate_working_orders-touched (lit 2001 0) (lit 1999 0) 7 simulator

evaluate_session_context-Timetable_example :
    let context = (evaluate_session_context (time_of 13 0) (lit 2000 0) new_session_engine).0 in
    Timetable (time_of 13 0) context.session_name context.killzone_name context.is_overlap
    × (context.killzone_active ≡ is_some context.killzone_name)
evaluate_session_context-Timetable_example =
    evaluate_session_context-Timetable (time_of 13 0) (lit 2000 0) new_session_engine

-- An engine with a structural high below the close, and no low.
abbrev below_high : StructureEngine
below_high = record (new_structure_engine m1 50) {
  current_structural_high = some (high_at (lit 2050 0));
}

-- The close reports the shift.
shift_reported :
    (ingest_candle_close (candle_to (lit 2090 0)) below_high).0.1
    ≡ record { break_type = mss; level = lit 2050 0; at = 60 } ∷ []
unfolding ingest_candle_close remember_candle verify_breaks break_high break_low ltb_ℚ
    new_structure_engine
shift_reported = refl
