-- ===== src/Tests.antt =====
-- The theorems at concrete inputs.
mod Data
mod StateRuns
mod OrderRuns
mod RiskRuns
mod MarketRuns
mod StopRuns
mod ReplayRuns
mod SwingRuns
mod RegimeRuns
mod GateRuns
mod StrategyRuns
