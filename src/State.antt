-- ===== src/State.antt =====
-- The runtime state: validation and mutation of the state container, its serialisation, and the
-- manager that holds the active state and the journal.
mod Mutator
pub mod Snapshots
pub mod Manager
pub mod Rollback
pub mod Outcomes
unfoldable pub use Mutator.*
unfoldable pub use Snapshots.*
