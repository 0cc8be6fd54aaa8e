-- ===== src/Approvals.antt =====
-- src/db/approval-*-operations.ts: the human decision on a containment plan.
pub mod Decision
pub mod Token
pub mod Decide
pub mod Expire
pub mod Decided
pub mod Bound
pub mod Issued
pub mod Resume
pub mod Resumption
mod Examples
pub mod Receipt
