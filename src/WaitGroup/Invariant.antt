-- ===== src/WaitGroup/Invariant.antt =====
-- What holds between the counter, the workers, the owner and the tasks after every step.
mod Facts
pub mod CounterSteps
pub mod ThreadSteps
pub mod DeliveredFacts
pub mod DeliverySteps
pub use Facts.*
