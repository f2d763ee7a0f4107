-- ===== src/Registry.antt =====
-- utils/handel_dis_users.py and its table: who is disabled, and who is due to be enabled again.
mod Store
pub mod Due
pub mod Remaining
mod Tests
unfoldable pub use Store.*
