-- ===== src/Analytics.antt =====
-- src/analytics.
pub mod Candles
pub mod Liquidity
pub mod Sessions
pub mod Structure
pub mod Regime
pub mod RiskManagement
pub mod Swings
