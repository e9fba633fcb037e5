-- ===== src/Analytics/RiskManagement.antt =====
-- src/analytics/ict_smc/risk_management.py: the risk gate of the ICT/SMC setups.
pub mod Types
pub mod Sizing
pub mod Limits
pub mod Decisions
pub mod Validate
pub mod Passed
pub mod Rounding
pub mod Approval
pub mod Decided
pub mod Wider
