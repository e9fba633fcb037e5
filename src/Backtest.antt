-- ===== src/Backtest.antt =====
-- src/backtesting and src/backtest.
pub mod Fills
pub mod Replay
