-- ===== src/Bridge.antt =====
-- bridge.c, bridge.h, bridge_closure.c, bridge_worker.c: the code between PHP and the wait group.
pub mod Types
pub mod Zend
pub mod Capture
pub mod Materialise
pub mod Callable
pub mod Runner
