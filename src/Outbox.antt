-- ===== src/Outbox.antt =====
-- src/db/outbox-operations.ts: the transactional outbox, whose rows are leased to a dispatcher,
-- published, tried again, or given up as dead letters.
pub mod Claim
pub mod Backoff
pub mod Settle
pub mod DeadLetter
pub mod Rows
pub mod Leases
pub mod Selection
pub mod Completeness
pub mod Due
pub mod Retries
mod Examples
