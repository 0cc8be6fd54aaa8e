-- ===== src/Lib.antt =====
-- The operational core of the security incident triage service (src/): what happens to an incident
-- between its alert and its end, and how its events leave the service.
--
-- The program. An alert becomes an incident, whose row, timeline and outgoing events stand in one
-- SQL store. Each operation of src/db is one transaction on that store: it reads the incident,
-- changes its status by an UPDATE with the conditions that make it safe, and writes one event both to
-- the incident's timeline and to the outbox. A dispatcher claims rows of the outbox under a lease,
-- publishes them, and records success or failure. Webhooks pass a rate limiter first. A deterministic
-- policy classifies the evidence that an investigation has collected. An approved plan is executed action
-- by action: a claim gives an attempt a fence token and a lease, and a remote mutation is claimed in a
-- ledger of provider effects before it is sent.
--
-- The modules:
--   Prelude     Boolean tests on numbers, equality as an interface, row scans, tables with a key.
--   Schemas     src/schemas and src/db/timeline-schema.ts: parsing as functions into Option.
--   Domain      src/domain: error codes, and the transition table of an incident.
--   Store       the rows of src/db/migrations, the transaction of src/db/libsql-operational-store.ts
--               as a function from the database to a result and the new database, and the statements
--               that several operations share, with the CHECKs, keys and triggers that they meet.
--   Incidents   src/db/incident-operations.ts (createIncidentFromAlertResult in Create, with the
--               comparison of alerts in Equivalence, getIncident, transitionIncident,
--               insertTimelineAndOutbox), src/db/timeline-operations.ts, and
--               src/db/workflow-run-operations.ts (materializeInvestigationStart).
--   Approvals   src/db/approval-decision-operations.ts (decideApproval),
--               src/db/approval-expiry-operations.ts, the token of src/approval/resume-token.ts, and
--               src/db/approval-resume-operations.ts in Resume and Receipt; proofs in Decided,
--               Bound, Issued and Resumption.
--   Containment src/db/containment-outcome-operations.ts (Outcome), src/containment/execution-claims.ts
--               (Reads, Claim, Finish, Audit), src/containment/containment-verification.ts
--               (Verification) and src/db/provider-effect-operations.ts (Effects). Steps, Granting,
--               Claimed and Claims show what a claim does to the attempts, Ledger the same of the
--               effects; Execution has the histories, Attempts, Live, Safety, Numbers, Exclusion,
--               Fences and Mutations their invariants, Grounds those of a grant, and Readback what is read of an ended attempt.
--   Lifecycle   proofs only: the operations above as steps of one abstract machine (Step, Moves,
--               Operations, Outcomes, Starts, Appended), their histories (History, Gapless, Trace), and
--               deliveries of alerts (NewIncident, Created, Arrivals, Redelivery).
--   Outbox      src/db/outbox-operations.ts: Claim, Settle, Backoff, DeadLetter; the proofs are in
--               Rows, Leases, Selection, Completeness, Due and Retries.
--   RateLimit   src/webhook-rate-limit.ts, with proofs in Bounds and Window.
--   Triage      src/triage/policy-registry.ts and src/triage/policy.ts, with proofs in Laws, Trust and
--               Confidence.
--
-- The correspondence. An operation has the name of its function, in snake case; a `throw` of a
-- domain error is `err`, and a transaction that throws leaves the database as it was. Instants are
-- numbers, since the texts of the source are of one length and ordered like them; what a clock, an
-- identifier generator or a caller's check answers is an argument. Tables that are read by their
-- key are functions, scanned ones are lists. The three attempts of a delivery are recursion on
-- their number, and all other loops are over lists. Arguments of a delivery say where the store is
-- busy. SHA-256, the fingerprint of a decision, the reading of a trace carrier and what
-- Intl.DisplayNames knows of a region are parameters. A confidence is counted in millionths, and
-- the jitter of a backoff is computed exactly, where the source rounds in floating point. The
-- numbers in a payload or in the fact of an evidence are natural numbers, where the schema admits
-- every finite one.
--
-- Not modelled: approval requests, the gateway and the planner of containment, deliveries to
-- providers, runbooks, retention, and everything that is input and output: servers, dashboards,
-- third-party providers, and the Mastra workflows. The driver's own failures (busy or locked
-- databases) are left out of the other transactions.
mod Prelude
pub mod Schemas
pub mod Domain
pub mod Store
pub mod Incidents
pub mod Approvals
pub mod Containment
pub mod Lifecycle
pub mod Outbox
pub mod RateLimit
pub mod Triage
