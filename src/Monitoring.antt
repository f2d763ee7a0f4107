-- ===== src/Monitoring.antt =====
-- telegram_bot/topics.py and utils/monitoring_gate.py: whether users may be watched, and since when.
mod Topics
mod Gate
pub mod Pause
pub mod Delivery
mod Tests
unfoldable pub use Topics.*
unfoldable pub use Gate.*
