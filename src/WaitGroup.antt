-- ===== src/WaitGroup.antt =====
-- core/waitgroup.h and core/waitgroup.c: tasks on threads, joined by a counter under a lock.
mod Defs
mod Steps
pub mod Count
pub mod Invariant
pub mod Safety
unfoldable pub use Defs.*
unfoldable pub use Steps.*
