-- ===== src/Examples.antt =====
-- The theorems at concrete values, and runs of the definitions.
mod Memory
mod Groups
mod Builders
mod Values
mod Wire
mod Threads
mod Sources
mod Machine
mod Zvals
mod Tasks
mod Outcomes
