-- ===== src/Memory.antt =====
-- value/value.c and value/clone.c over a store with addresses: what is allocated and released.
pub mod Store
pub mod Regions
pub mod Owns
pub mod Frame
pub mod Living
pub mod Extends
pub mod Release
pub mod Make
pub mod Copy
pub mod Group
pub mod Build
