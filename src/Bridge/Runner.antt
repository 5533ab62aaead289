-- ===== src/Bridge/Runner.antt =====
-- bridge_worker.c: what runs on the thread of a task.
pub mod Words
pub mod Flow
pub mod Factory
pub mod Main
pub mod Stages
pub mod Ends
pub mod Verdict
pub mod Delivery
