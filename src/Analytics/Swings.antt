-- ===== src/Analytics/Swings.antt =====
-- src/analytics/ict_smc/swing_points.py: the detector of confirmed swing highs and lows. Its records
-- stand in Types, the reading of candles in Normalize, the average true range in Atr, the scores in
-- Scores, and the detection in Detect. `as_dict`, a view for output, is left out.
pub mod Types
pub mod Normalize
pub mod Atr
pub mod Scores
pub mod Detect
pub mod Filter
pub mod Sorted
pub mod Collected
pub mod Confirmation
pub mod Settled
pub mod Pivots
pub mod Extremes
