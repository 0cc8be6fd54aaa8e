-- ===== src/Lifecycle.antt =====
-- The life of an incident as the operations on it together make it: each operation that returns is
-- a step of one abstract machine, and the invariants are those of the machine.
pub mod Step
pub mod Moves
pub mod Operations
pub mod Outcomes
pub mod Starts
pub mod Appended
pub mod History
pub mod Gapless
pub mod Trace
pub mod Fixtures
pub mod NewIncident
pub mod Created
pub mod Arrivals
pub mod Redelivery
mod Examples
mod Histories
mod Deliveries
