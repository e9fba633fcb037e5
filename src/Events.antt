-- ===== src/Events.antt =====
-- src/core/events.
pub mod Bus
