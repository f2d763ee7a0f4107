-- ===== src/Observations.antt =====
-- utils/log_observations.py: the memory of the log records of every node, and whether a sample of them
-- can be trusted.
mod State
mod Replay
mod Fleet
mod Ready
mod Evidence
mod Doubt
pub mod Covered
pub mod Replayed
pub mod Coverage
pub mod Counted
mod Heap
pub mod Index
pub mod Retained
pub mod Diagnostics
mod Steps
mod FleetSteps
pub mod Epochs
mod Tests
unfoldable pub use State.*
unfoldable pub use Replay.*
unfoldable pub use Fleet.*
unfoldable pub use Ready.*
unfoldable pub use Evidence.*
