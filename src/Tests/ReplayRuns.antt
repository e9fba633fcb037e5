-- ===== src/Tests/ReplayRuns.antt =====
-- The theorems on the replay of recorded data at concrete inputs.
use apex_xauusd_engine.Prelude.{
  ℕ, ◌≡◌, refl, true, false, not, none, some, List, [], ◌∷◌, ◌++◌, map, is_empty, arith,
}
use mathlib.Core.List.{Perm}
use apex_xauusd_engine.Prelude.Rat.{lit}
use apex_xauusd_engine.Domain.{Timeframe, m1}
use apex_xauusd_engine.Backtest.Replay.{
  RowNode, tick_row, candle_row, Buffers, event_time, ReplayEngine, command, pause, resume, step,
  turn_taken, command_given, run, Move, turn, candidates, locate_next_chronological_track, earliest,
  play, convert_row_to_tick, convert_row_to_candle,
}
use apex_xauusd_engine.Backtest.Replay.Times.{ChronoFrom}
use apex_xauusd_engine.Backtest.Replay.Tracks.{IsReady, pending}
use apex_xauusd_engine.Backtest.Replay.Chronology.{run-chronological}
use apex_xauusd_engine.Backtest.Replay.Exhaustion.{turns, launch_replay_loop_ends}
use apex_xauusd_engine.Tests.Data.{gold}

-- Buffers that are lists of rows; an empty one shows a row of no use.
abbrev no_row : RowNode
no_row = tick_row (record { timestamp = 0; bid = lit 0 0; ask = none; volume = none })

abbrev first_row : List RowNode → RowNode
first_row [] = no_row
first_row (row ∷ rest) = row

abbrev rest_of : List RowNode → List RowNode
rest_of [] = []
rest_of (row ∷ rest) = rest

first_of_held : (b : List RowNode) (r : RowNode) (rs : List RowNode) → b ≡ r ∷ rs → first_row b ≡ r
first_of_held [] r rs h = cc
first_of_held (row ∷ rest) r rs h = cc

rest_of_held : (b : List RowNode) (r : RowNode) (rs : List RowNode) → b ≡ r ∷ rs → rest_of b ≡ rs
rest_of_held [] r rs h = cc
rest_of_held (row ∷ rest) r rs h = cc

abbrev lists : Buffers
lists = record {
  Buffer = List RowNode;
  offers_has_next = λ b. true;
  offers_peek_next_node = λ b. true;
  has_next = λ b. not (is_empty b);
  peek_next_node = first_row;
  fetch_next_node = λ b. (first_row b, rest_of b);
  rows = λ b. b;
  has_next_iff = λ b. refl;
  peek_first = first_of_held;
  fetch_first = λ b r rs h. (first_of_held b r rs h, rest_of_held b r rs h);
  offers_kept = λ b. (refl, refl);
}

abbrev to_m1 : ℕ → Timeframe
to_m1 key = m1

abbrev tick_row_at : ℕ → RowNode
tick_row_at n =
    tick_row (record { timestamp = n; bid = lit 2000 0; ask = some (lit 2001 0); volume = none })

abbrev candle_row_at : ℕ → RowNode
candle_row_at n = candle_row (record {
  timestamp = n;
  open_p = lit 2000 0;
  high_p = lit 2010 0;
  low_p = lit 1990 0;
  close_p = lit 2005 0;
  volume = some 7;
})

abbrev playing : ReplayEngine (List RowNode)
playing = record {
  symbol = gold;
  start_time = 0;
  is_running = true;
  is_looping = true;
  is_paused = false;
  is_step_mode = false;
  current_time = some 0;
  registry = (1, tick_row_at 3 ∷ tick_row_at 8 ∷ []) ∷ (2, candle_row_at 5 ∷ []) ∷ [];
}

ready : IsReady lists to_m1 1 playing.registry
ready = record {
  distinct = (refl, (refl, tt));
  streams = (
    record { with_has_next = refl; with_peek = refl; ordered = omega arith },
    (record { with_has_next = refl; with_peek = refl; ordered = omega arith }, tt),
  );
}

-- A paused turn, a single step, and a turn that waits again.
abbrev session : List (Move lists to_m1)
session =
    command_given pause
    ∷ turn_taken
    ∷ command_given step
    ∷ turn_taken
    ∷ turn_taken
    ∷ command_given resume
    ∷ turn_taken
    ∷ []

run-chronological_example :
    ChronoFrom 1 (map event_time (run lists to_m1 session playing).1)
    × Perm
        ((run lists to_m1 session playing).1
          ++ pending lists to_m1 gold (run lists to_m1 session playing).0.registry)
        (pending lists to_m1 gold playing.registry)
run-chronological_example = run-chronological lists to_m1 session 1 playing ready

-- The session publishes the first tick and the candle.
session_times : map event_time (run lists to_m1 session playing).1 ≡ 3 ∷ 5 ∷ []
unfolding run turn command candidates locate_next_chronological_track earliest play
    convert_row_to_tick convert_row_to_candle
session_times = refl

launch_replay_loop_ends_example :
    ((run lists to_m1 (turns lists to_m1 4) playing).0.is_looping ≡ false)
    × ChronoFrom 1 (map event_time (run lists to_m1 (turns lists to_m1 4) playing).1)
    × Perm
        (run lists to_m1 (turns lists to_m1 4) playing).1
        (pending lists to_m1 gold playing.registry)
launch_replay_loop_ends_example = launch_replay_loop_ends lists to_m1 1 playing (record {
  ready = ready;
  named = (refl, (refl, tt));
  looping = refl;
  running = refl;
  unpaused = refl;
  freely = refl;
})
