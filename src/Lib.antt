-- ===== src/Lib.antt =====
-- Models and theorems for the Apex XAUUSD engine, a trading engine for gold.
--
-- The engine holds one runtime state (src/strategy/state_manager.py over src/core/state), lets setups
-- pass a chain of risk gates (src/execution/risk_firewall.py with its gates and position sizer,
-- src/execution/pre_submission_guard.py), routes accepted orders to a broker and tracks their life
-- (src/execution/execution_router.py, order_lifecycle.py), and manages the stop of an open trade
-- (src/execution/position_tracker.py). Ticks become candles and liquidity pools (src/analytics), from
-- which src/strategy detects, confirms and scores setups; components exchange events over
-- src/core/events/event_bus.py, and src/backtest replaces the broker in simulations.
--
-- Files:
-- - Prelude: the shared names of the libraries, Boolean tests, lists, dictionaries, integers and
--   exact rational numbers.
-- - Errors: src/shared/exceptions.py and the built-in exceptions, as values of a result type.
-- - Domain: the enumerations and frozen dataclasses of src/core/domain.
-- - State: Mutator (validators.py, mutator.py), Snapshots (snapshots.py) and Manager
--   (state_manager.py); Rollback and Outcomes hold the theorems.
-- - Execution: Lifecycle (order_lifecycle.py), Gates (slippage_protection.py, safety_filters.py,
--   rr_validator.py, drawdown_protection.py), Router (execution_router.py), Reconciler and Trailing
--   (position_tracker.py and the loop of manage_protected_position in
--   scripts/mt5_intelligent_demo_runner.py), Guard (pre_submission_guard.py), Sizer
--   (position_sizer.py), Firewall (risk_firewall.py), StopHardening (stop_loss_engine.py) and
--   RewardRisk (rr_math.py), each with child modules for its theorems.
-- - Events: Bus (src/core/events/event_bus.py, event_types.py), with Order and Delivery for its
--   theorems.
-- - Analytics: Candles (src/analytics/candle_builder.py), Liquidity (liquidity_engine.py),
--   Sessions (session_engine.py), Structure (structure_engine.py), Regime
--   (regime_detection.py, whose numpy statistics are a parameter), RiskManagement
--   (ict_smc/risk_management.py, with Passed, Approval, Decided and Wider for its theorems) and Swings
--   (ict_smc/swing_points.py), whose Settled and Extremes hold its theorems.
-- - Strategy: Scoring (src/strategy/scoring_matrix.py, scoring_components.py, penalty_engine.py),
--   Confirmation (confirmation_core.py, momentum_validator.py, displacement_validator.py,
--   mtf_alignment.py) and Setups (setup_quality.py, setup_lifecycle.py, reversal_detectors.py,
--   continuation_detectors.py).
-- - Backtest: Fills (src/backtesting/fill_engine.py, src/backtest/simulator_interface.py) and Replay
--   (src/backtest/replay_engine.py with the clock, scheduler, controller and converters of
--   src/backtesting); Replay.Tracks, Chronology and Exhaustion hold its theorems. The event bus
--   of a replay is running and has room: the error of publish on a stopped bus, after which the row is
--   lost, and its wait on a full queue are left out.
-- - Tests: the theorems at concrete inputs.
--
-- Conventions. A float is an exact rational number, so rounding, overflow and NaN are outside the
-- model; a division whose divisor the source guards is exact. A datetime is a number of
-- microseconds, and the current time is an argument. Identifiers, symbols and keys, which the code
-- only compares, are numbers; texts that the engine formats or compares are constructors. An
-- exception is a value of Errors.Result. A class is a record of its fields, and a method a function
-- from the record to the new record. A coroutine is cut at its awaits, and an interleaving is a list
-- of such stretches. The broker's answers, its stream, its positions and the loss calculator are
-- arguments. Logging and calls of the event bus that are commented out in the source are left out.
-- All loops are structural recursions on lists; no fuel is used.
--
-- Not modelled: the setup detector and the strategy selector, the ict_smc packages except for
-- swing points and risk management, the backtests; the broker terminal, the database, feeds,
-- telemetry, the web interface and the command-line drivers, the latter six because they are input
-- and output.
pub mod Prelude
pub mod Errors
pub mod Domain
pub mod State
pub mod Analytics
pub mod Events
pub mod Execution
pub mod Strategy
pub mod Backtest
pub mod Tests
