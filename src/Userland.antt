-- ===== src/Userland.antt =====
-- php_binding.c: the class WaitGroup.
pub mod Calls
pub mod Wait
pub mod Entered
pub mod Results
pub mod Outcomes
