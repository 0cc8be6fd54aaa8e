-- ===== src/Triage.antt =====
-- src/triage: the deterministic policy that decides whether an incident is classified.
pub mod Evidence
pub mod Requirements
pub mod Resolve
pub mod Severity
pub mod Laws
pub mod Trust
pub mod Confidence
mod Examples
