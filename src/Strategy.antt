-- ===== src/Strategy.antt =====
-- src/strategy, without the state manager.
pub mod Scoring
pub mod Confirmation
pub mod Setups
