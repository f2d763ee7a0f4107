-- ===== src/Policy.antt =====
-- utils/user_policy.py: who is limited, and to how many devices.
mod Defs
pub mod Limits
pub mod Eligible
mod Tests
unfoldable pub use Defs.*
