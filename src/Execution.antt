-- ===== src/Execution.antt =====
-- The execution layer: the order lifecycle, the gates before a trade, position sizing, stop
-- hardening, protection of an open trade, and the order router.
pub mod Lifecycle
pub mod Gates
pub mod Router
pub mod Reconciler
pub mod Trailing
pub mod Guard
pub mod Sizer
pub mod Firewall
pub mod RewardRisk
pub mod StopHardening
