-- ===== src/Containment/Outcome.antt =====
-- src/db/containment-outcome-operations.ts: the end of a containment, recorded once.
use template_security_incide.Prelude.{
  ℕ, ◌+◌, String, Bool, false, ◌&&◌, none, some, [], ◌∷◌, ◌==◌, nat_eq, string_eq, option_eq,
  if◌then◌else◌,
}
use template_security_incide.Schemas.Common.{str, num, bool}
use template_security_incide.Schemas.Incident.{IncidentStatus, containing, status_eq}
use template_security_incide.Schemas.Events.{containment_completed}
use template_security_incide.Domain.Errors.{conflict}
use template_security_incide.Store.Rows.{Db, IncidentRow}
use template_security_incide.Store.Tx.{Tx, ok, ◌>>=◌, expect}
use template_security_incide.Store.Writes.{incident_at, update_incident}
use template_security_incide.Incidents.Events.{insert_timeline_and_outbox}

pub data OutcomeStatus : Type 0 where
  contained failed : OutcomeStatus

pub record OutcomeInput : Type 0 where
  pub tenant_id : String
  pub incident_id : String
  pub workflow_run_id : String
  pub correlation_id : String
  pub approval_id : String
  pub expected_version : ℕ
  pub status : OutcomeStatus
  pub partial : Bool
  pub completed_count : ℕ
  pub failed_count : ℕ

pub record OutcomeDependencies : Type 0 where
  pub now : ℕ
  pub timeline_id : String
  pub event_id : String

abbrev pub incident_status : OutcomeStatus → IncidentStatus
incident_status contained = IncidentStatus.contained
incident_status failed = IncidentStatus.failed

abbrev outcome_text : OutcomeStatus → String
outcome_text contained = "contained"
outcome_text failed = "failed"

abbrev pub finished : OutcomeStatus → ℕ → IncidentRow → IncidentRow
finished status now row = record row {
  status = incident_status status;
  version = row.version + 1;
  timeline_sequence = row.timeline_sequence + 1;
  updated_at = now;
}

-- `current.rows[0]?.status === input.status`
unfoldable pub already_recorded : OutcomeInput → Db → Bool
unfolding incident_at
already_recorded input db = elim (incident_at db input.tenant_id input.incident_id) [
  | none ↦ false
  | some row ↦
      row.current_run_id == some input.workflow_run_id && row.status == incident_status input.status
]

unfoldable pub finish_containment : OutcomeInput → OutcomeDependencies → Tx (Unit {0})
finish_containment input deps = do
  updated ←
      update_incident input.tenant_id input.incident_id
        (λ row.
          row.current_run_id == some input.workflow_run_id
          && row.status == containing
          && row.version == input.expected_version)
        (finished input.status deps.now)
  row ← expect updated conflict
  insert_timeline_and_outbox (record {
    timeline_id = deps.timeline_id;
    event_id = deps.event_id;
    incident_id = input.incident_id;
    tenant_id = input.tenant_id;
    sequence = row.timeline_sequence;
    type = "containment.completed";
    event_type = containment_completed;
    run_id = input.workflow_run_id;
    correlation_id = input.correlation_id;
    causation_id = some input.approval_id;
    occurred_at = deps.now;
    payload =
        ("status", str (outcome_text input.status))
        ∷ ("partial", bool input.partial)
        ∷ ("completedCount", num input.completed_count)
        ∷ ("failedCount", num input.failed_count)
        ∷ [];
  })

unfoldable pub record_containment_outcome : OutcomeInput → OutcomeDependencies → Tx (Unit {0})
unfolding already_recorded
record_containment_outcome input deps db =
    if already_recorded input db then ok (tt, db) else finish_containment input deps db
