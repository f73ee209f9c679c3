-- ===== src/Shared.antt =====
-- src/pyiamkit/shared: time stamps and domain events.
pub mod Time
pub mod Events
pub mod Ids
pub mod Runs
pub mod Stores
unfoldable pub use Time.*
pub use Events.*
unfoldable pub use Ids.*
unfoldable pub use Runs.*
