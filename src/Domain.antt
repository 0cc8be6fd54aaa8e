-- ===== src/Domain.antt =====
-- src/domain: error codes and the incident's state machine.
pub mod Errors
pub mod IncidentState
