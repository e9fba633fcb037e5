-- ===== src/Backtest/Replay.antt =====
-- The replay of recorded data: src/backtest/replay_engine.py over the clock, the scheduler, the
-- controller and the row converters of src/backtesting. One turn of the loop is a function, and so is
-- each call of the controller between two turns. The data buffers, which no file of the repository
-- implements, are a parameter. A row is that of a tick or that of a candle; keys of tracks are numbers,
-- 0 the empty text, and the last part of a key names a timeframe by a function that is a parameter.
-- The event bus is running and has room: the error of `publish` on a stopped bus, after the row has
-- been taken, and its wait on a full queue are left out.
pub mod Times
pub mod Tracks
pub mod Chronology
pub mod Exhaustion
use apex_xauusd_engine.Prelude.{
  ℕ, ◌≡◌, Bool, true, false, not, ◌&&◌, ◌||◌, Option, none, some, List, [], ◌∷◌, ◌++◌, map,
  is_empty, or_else, ltb, ◌==◌, if◌then◌else◌,
}
use apex_xauusd_engine.Prelude.Dict.{Dict, insert, lookup}
use apex_xauusd_engine.Prelude.Rat.{ℚ}
use apex_xauusd_engine.Domain.{TickNode, CandleNode, Timeframe, normal}

pub record TickRow : Type 0 where
  pub timestamp : ℕ
  pub bid : ℚ
  pub ask : Option ℚ
  pub volume : Option ℕ

pub record OhlcRow : Type 0 where
  pub timestamp : ℕ
  pub open_p : ℚ
  pub high_p : ℚ
  pub low_p : ℚ
  pub close_p : ℚ
  pub volume : Option ℕ

pub data RowNode : Type 0 where
  tick_row : TickRow → RowNode
  candle_row : OhlcRow → RowNode

abbrev pub row_time : RowNode → ℕ
row_time (tick_row t) = t.timestamp
row_time (candle_row o) = o.timestamp

-- A buffer's methods, and the rows that it still holds. The code asks with `hasattr` for two of the
-- methods. The laws say that `peek_next_node` shows and `fetch_next_node` takes the first row.
pub record Buffers : Type 1 where
  pub Buffer : Type 0
  pub offers_has_next : Buffer → Bool
  pub offers_peek_next_node : Buffer → Bool
  pub has_next : Buffer → Bool
  pub peek_next_node : Buffer → RowNode
  pub fetch_next_node : Buffer → RowNode × Buffer
  pub rows : Buffer → List RowNode
  pub has_next_iff : (b : Buffer) → has_next b ≡ not (is_empty (rows b))
  pub peek_first :
      (b : Buffer) (r : RowNode) (rs : List RowNode) → rows b ≡ r ∷ rs → peek_next_node b ≡ r
  pub fetch_first :
      (b : Buffer) (r : RowNode) (rs : List RowNode)
      → rows b ≡ r ∷ rs
      → ((fetch_next_node b).0 ≡ r) × (rows (fetch_next_node b).1 ≡ rs)
  pub offers_kept :
      (b : Buffer)
      → (offers_has_next (fetch_next_node b).1 ≡ offers_has_next b)
        × (offers_peek_next_node (fetch_next_node b).1 ≡ offers_peek_next_node b)

pub data MarketEvent : Type 0 where
  market_tick : TickNode → MarketEvent
  candle_closed : CandleNode → MarketEvent

abbrev pub event_time : MarketEvent → ℕ
event_time (market_tick t) = t.timestamp
event_time (candle_closed c) = c.end_time

unfoldable pub convert_row_to_tick : ℕ → TickRow → TickNode
convert_row_to_tick symbol r = record {
  symbol = symbol;
  timestamp = r.timestamp;
  bid = r.bid;
  ask = or_else r.ask r.bid;
  volume = or_else r.volume 0;
  sequence_id = 0;
  trace_id = 0;
  correlation_id = none;
  priority = normal;
}

unfoldable pub convert_row_to_candle : ℕ → OhlcRow → Timeframe → CandleNode
convert_row_to_candle symbol r timeframe = record {
  symbol = symbol;
  timeframe = timeframe;
  start_time = r.timestamp;
  end_time = r.timestamp;
  open_p = r.open_p;
  high_p = r.high_p;
  low_p = r.low_p;
  close_p = r.close_p;
  volume = or_else r.volume 0;
  ticks_count = 0;
  is_closed = true;
  sequence_id = 0;
  trace_id = 0;
  correlation_id = none;
  priority = normal;
}

-- `HistoricalReplayEngine` with its clock, scheduler and controller; `is_looping` says that
-- `launch_replay_loop` has not returned.
pub record ReplayEngine (Buffer : Type 0) : Type 0 where
  pub symbol : ℕ
  pub start_time : ℕ
  pub is_running : Bool
  pub is_looping : Bool
  pub is_paused : Bool
  pub is_step_mode : Bool
  pub current_time : Option ℕ
  pub registry : Dict Buffer

-- `__init__`
unfoldable pub new_replay : (Buffer : Type 0) → ℕ → ℕ → ReplayEngine Buffer
new_replay Buffer symbol start_time = record {
  symbol = symbol;
  start_time = start_time;
  is_running = false;
  is_looping = false;
  is_paused = false;
  is_step_mode = false;
  current_time = none;
  registry = [];
}

-- The calls of the controller and of the engine from outside the loop.
pub data Command : Type 0 where
  pause resume step terminate : Command

-- `min(candidates, key=lambda item: item[0])`, from the first candidate
unfoldable pub earliest : ℕ × ℕ → List (ℕ × ℕ) → ℕ × ℕ
earliest best [] = best
earliest best (c ∷ cs) = earliest (if ltb c.0 best.0 then c else best) cs

abbrev pub key_of_earliest : List (ℕ × ℕ) → Option ℕ
key_of_earliest [] = none
key_of_earliest (c ∷ cs) = some (earliest c cs).1

module _ (api : Buffers) (timeframe_of : ℕ → Timeframe) where
  open api use {
    Buffer, offers_has_next, offers_peek_next_node, has_next, peek_next_node, fetch_next_node,
  }

  unfoldable pub bootstrap : ReplayEngine Buffer → ReplayEngine Buffer
  bootstrap r = record r { current_time = some r.start_time; is_running = true }

  -- `attach_data_buffer`
  unfoldable pub attach_data_buffer : ℕ → Buffer → ReplayEngine Buffer → ReplayEngine Buffer
  attach_data_buffer key buffer r = record r { registry = insert key buffer r.registry }

  unfoldable pub command : Command → ReplayEngine Buffer → ReplayEngine Buffer
  command pause r = record r { is_paused = true; is_step_mode = false }
  command resume r = record r { is_paused = false; is_step_mode = false }
  command step r = record r { is_paused = false; is_step_mode = true }
  command terminate r = record r { is_running = false }

  -- The call of `launch_replay_loop`.
  unfoldable pub launch : ReplayEngine Buffer → ReplayEngine Buffer
  launch r = record r { is_looping = true }

  -- Whether the scheduler passes over a buffer, and the time that it takes for it otherwise.
  abbrev pub is_skipped : Buffer → Bool
  is_skipped b = offers_has_next b && not (has_next b)

  abbrev pub time_of : Buffer → ℕ
  time_of b = if offers_peek_next_node b then row_time (peek_next_node b) else 0

  unfoldable pub candidates : Dict Buffer → List (ℕ × ℕ)
  candidates [] = []
  candidates ((key, b) ∷ rest) =
      let more = candidates rest in if is_skipped b then more else (time_of b, key) ∷ more

  unfoldable pub locate_next_chronological_track : Dict Buffer → Option ℕ
  locate_next_chronological_track registry = key_of_earliest (candidates registry)

  abbrev pub event_of : ℕ → ℕ → RowNode → MarketEvent
  event_of symbol key (tick_row t) = market_tick (convert_row_to_tick symbol t)
  event_of symbol key (candle_row o) =
      candle_closed (convert_row_to_candle symbol o (timeframe_of key))

  -- The row is published, on a running bus, and a single step pauses the replay again.
  unfoldable pub play :
      ReplayEngine Buffer → ℕ → RowNode × Buffer → ReplayEngine Buffer × List MarketEvent
  play r key (row, rest) = (
    record r {
      current_time = some (row_time row);
      registry = insert key rest r.registry;
      is_paused = r.is_step_mode || r.is_paused;
      is_step_mode = false;
    },
    event_of r.symbol key row ∷ [],
  )

  abbrev pub stop_looping : ReplayEngine Buffer → ReplayEngine Buffer × List MarketEvent
  stop_looping r = (record r { is_looping = false }, [])

  -- The scheduler's key is one of the registry.
  abbrev pub play_buffer :
      ReplayEngine Buffer → ℕ → Option Buffer → ReplayEngine Buffer × List MarketEvent
  play_buffer r key (some b) = play r key (fetch_next_node b)
  play_buffer r key none = (r, [])

  abbrev pub play_track : ReplayEngine Buffer → Option ℕ → ReplayEngine Buffer × List MarketEvent
  play_track r none = stop_looping r
  play_track r (some key) =
      if key == 0 then stop_looping r else play_buffer r key (lookup key r.registry)

  -- One turn of the loop of `launch_replay_loop`, from one `await` of a sleep to the next.
  unfoldable pub turn : ReplayEngine Buffer → ReplayEngine Buffer × List MarketEvent
  turn r =
      if not r.is_looping
      then (r, [])
      else if not r.is_running
      then stop_looping r
      else if r.is_paused && not r.is_step_mode
      then (r, [])
      else play_track r (locate_next_chronological_track r.registry)

  -- An interleaving of turns and commands: the engine after it, and what it published.
  pub data Move : Type 0 where
    turn_taken : Move
    command_given : Command → Move

  abbrev pub move : Move → ReplayEngine Buffer → ReplayEngine Buffer × List MarketEvent
  move turn_taken r = turn r
  move (command_given c) r = (command c r, [])

  unfoldable pub run : List Move → ReplayEngine Buffer → ReplayEngine Buffer × List MarketEvent
  run [] r = (r, [])
  run (m ∷ ms) r =
      let (first, published) = move m r in
      let (last, later) = run ms first in (last, published ++ later)
