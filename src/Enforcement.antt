-- ===== src/Enforcement.antt =====
-- utils/panel_api/users.py, utils/enforcement_guard.py and utils/punishment_facts.py: how a punishment is
-- applied on the panel and recorded.
mod Guard
mod Flow
pub mod Balance
pub mod Applied
pub mod Pending
mod Tests
unfoldable pub use Guard.*
unfoldable pub use Flow.*
