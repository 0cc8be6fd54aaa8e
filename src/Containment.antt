-- ===== src/Containment.antt =====
-- src/containment and src/db/containment-outcome-operations.ts: what an approved plan does.
pub mod Outcome
pub mod Reads
pub mod Claim
pub mod Finish
pub mod Verification
pub mod Readback
pub mod Effects
mod Attempts
mod Steps
mod Granting
mod Claimed
mod Claims
mod Live
mod Ledger
pub mod Execution
pub mod Safety
pub mod Numbers
pub mod Exclusion
pub mod Fences
pub mod Mutations
pub mod Grounds
mod Examples
pub mod Audit
