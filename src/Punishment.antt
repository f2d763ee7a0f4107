-- ===== src/Punishment.antt =====
-- utils/punishment_system.py: the escalating punishments, and the record of what was applied.
mod Step
mod System
mod Ledger
pub mod Escalation
pub mod Once
pub mod Retry
pub mod Incident
pub mod Window
pub mod Quiet
pub mod Tests
unfoldable pub use Step.*
unfoldable pub use System.*
unfoldable pub use Ledger.*
