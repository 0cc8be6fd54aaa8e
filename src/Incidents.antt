-- ===== src/Incidents.antt =====
-- src/db/incident-operations.ts, timeline-operations.ts and workflow-run-operations.ts: the
-- operations on incidents and their event streams, each the body of one transaction.
pub mod Events
pub mod Transition
pub mod Timeline
pub mod Read
pub mod Start
pub mod Equivalence
pub mod Create
