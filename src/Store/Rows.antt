-- ===== src/Store/Rows.antt =====
-- The rows of the tables, from src/db/migrations/0001-operational-schema.ts and its successors.
-- A column that only other parts of the program read is left out; a constant one too.
use template_security_incide.Prelude.{ℕ, String, Option, List, Table}
use template_security_incide.Schemas.Common.{Payload}
use template_security_incide.Schemas.Incident.{IncidentKind, IncidentSeverity, IncidentStatus}
use template_security_incide.Schemas.Alert.{Alert}
use template_security_incide.Schemas.Events.{DomainEventType}
use template_security_incide.Store.ContainmentRows.{
  ActionRow, AttemptRow, EffectRow, MockEffectRow, GatewayAuditRow,
}

pub record IncidentRow : Type 0 where
  pub id : String
  pub tenant_id : String
  pub kind : IncidentKind
  pub subject_id : String
  pub status : IncidentStatus
  pub severity : Option IncidentSeverity
  pub version : ℕ
  pub timeline_sequence : ℕ
  pub current_plan_id : Option String
  pub current_run_id : Option String
  pub created_at : ℕ
  pub updated_at : ℕ
  pub closed_at : Option ℕ

-- The columns that repeat a field of the alert are read from it; `canonical_json` is the alert.
pub record AlertRow : Type 0 where
  pub incident_id : String
  pub alert : Alert

pub record TimelineRow : Type 0 where
  pub id : String
  pub incident_id : String
  pub tenant_id : String
  pub sequence : ℕ
  pub type : String
  pub correlation_id : String
  pub causation_id : Option String
  pub payload : Payload
  pub occurred_at : ℕ

pub record OutboxRow : Type 0 where
  pub id : String
  pub type : DomainEventType
  pub run_id : String
  pub incident_id : String
  pub tenant_id : String
  pub correlation_id : String
  pub causation_id : Option String
  pub payload : Payload
  pub occurred_at : ℕ
  pub available_at : ℕ
  pub published_at : Option ℕ
  pub attempt_count : ℕ
  pub error_code : Option String

pub record DeadLetterRow : Type 0 where
  pub id : String
  pub source_outbox_id : String
  pub event_type : DomainEventType
  pub tenant_id : String
  pub incident_id : String
  pub error_code : String
  pub attempt_count : ℕ
  pub created_at : ℕ
  pub resolved_at : Option ℕ

-- The primary key `id` and the unique `run_id` are always written with one value.
pub record WorkflowRunRow : Type 0 where
  pub run_id : String
  pub incident_id : String
  pub tenant_id : String
  pub workflow_id : String
  pub started_at : ℕ
  pub phase10_trace : Option String

pub data Decision : Type 0 where
  approved rejected : Decision

pub data Provenance : Type 0 where
  mock dashboard : Provenance

pub record PlanRow : Type 0 where
  pub id : String
  pub incident_id : String
  pub tenant_id : String
  pub plan_hash_version : ℕ
  pub plan_hash : String
  pub expires_at : ℕ
  pub created_at : ℕ

-- What a decision writes is null until it is made, all at once.
pub record DecisionColumns : Type 0 where
  pub decision : Decision
  pub decided_by : String
  pub decided_by_role : String
  pub decision_reason : Option String
  pub decided_at : ℕ
  pub decision_fingerprint : String
  pub decision_provenance : Provenance

pub record ApprovalRow : Type 0 where
  pub id : String
  pub plan_id : String
  pub incident_id : String
  pub tenant_id : String
  pub plan_hash_version : ℕ
  pub plan_hash : String
  pub requested_at : ℕ
  pub expires_at : ℕ
  pub workflow_run_id : String
  pub decided : Option DecisionColumns

pub record ResumeTokenRow : Type 0 where
  pub id : String
  pub tenant_id : String
  pub incident_id : String
  pub workflow_run_id : String
  pub approval_id : String
  pub decision : Decision
  pub decision_fingerprint : String
  pub token_digest : String
  pub issued_at : ℕ
  pub expires_at : ℕ
  pub consumed_at : Option ℕ
  pub resumed_at : Option ℕ

-- Tables that are read by their primary key are functions, those that are scanned are lists.
pub record Db : Type 0 where
  pub incidents : Table IncidentRow
  pub alerts : List AlertRow
  pub timeline_events : List TimelineRow
  pub outbox_events : List OutboxRow
  pub dead_letter_events : List DeadLetterRow
  pub workflow_runs : Table WorkflowRunRow
  pub containment_plans : Table PlanRow
  pub approvals : Table ApprovalRow
  pub approval_resume_tokens : List ResumeTokenRow
  pub containment_actions : List ActionRow
  pub containment_action_attempts : List AttemptRow
  pub provider_effect_ledger : List EffectRow
  pub mock_containment_effects : List MockEffectRow
  pub containment_gateway_audit : List GatewayAuditRow
