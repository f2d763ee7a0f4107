-- ===== src/DeviceCount.antt =====
-- utils/device_count.py: how many distinct devices the connections of a user represent.
mod Key
mod Tally
pub mod Members
pub mod LowerBound
pub mod Sample
pub mod Addresses
pub mod Bound
mod Tests
unfoldable pub use Key.{ipv4_prefix, subnet_key, device_key}
pub use Tally.*
