-- ===== src/Warnings.antt =====
-- utils/warning_system: the record of a user under monitoring, and the rule of consecutive scans.
mod Record
mod System
mod Scan
pub mod Trust
pub mod Trace
pub mod Pace
mod Counter
pub mod Streak
pub mod Progress
pub mod History
pub mod Expired
mod File
pub mod Restart
mod Tests
mod FileTests
unfoldable pub use Record.*
unfoldable pub use System.*
unfoldable pub use Scan.*
unfoldable pub use File.*
