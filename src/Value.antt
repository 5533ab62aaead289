-- ===== src/Value.antt =====
-- value/value.h and value/value.c: the snapshot that crosses the thread boundary.
mod Types
mod Build
mod Wellformed
pub mod Capacity
pub mod Keys
pub mod Snapshot
pub use Types.*
unfoldable pub use Build.*
pub use Wellformed.*
