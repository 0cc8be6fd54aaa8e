-- ===== src/Incidents/Transition.antt =====
-- transitionIncident of src/db/incident-operations.ts: the checked change of an incident's status.
use template_security_incide.Prelude.{
  ℕ, ◌+◌, String, Bool, not, ◌&&◌, ◌||◌, Option, some, List, [], ◌∷◌, ◌++◌, any, length, leb, ltb,
  ◌==◌, nat_eq, string_eq, if◌then◌else◌,
}
use template_security_incide.Schemas.Common.{Payload, str, bounded_json_object}
use template_security_incide.Schemas.Incident.{
  IncidentStatus, received, investigating, awaiting_approval, approved, rejected, containing,
  contained, failed, closed, status_eq,
}
use template_security_incide.Schemas.Events.{incident_updated}
use template_security_incide.Domain.Errors.{
  validation_failed, not_found, conflict, invalid_transition,
}
use template_security_incide.Domain.IncidentState.{can_transition}
use template_security_incide.Store.Rows.{IncidentRow}
use template_security_incide.Store.Tx.{Tx, ◌>>=◌, ◌>>◌, throw_if, read, expect}
use template_security_incide.Store.Writes.{incident_at, update_incident}
use template_security_incide.Incidents.Read.{Incident, incident_from_row}
use template_security_incide.Incidents.Events.{insert_timeline_and_outbox}

pub record TransitionInput : Type 0 where
  pub tenant_id : String
  pub incident_id : String
  pub expected_version : ℕ
  pub to : IncidentStatus
  pub run_id : String
  pub correlation_id : String
  pub causation_id : Option String
  pub payload : Payload

-- What `dependencies` answers: the clock's reading, two fresh identifiers, and the readiness check
-- of the caller, which reads the transaction.
pub record TransitionDependencies : Type 0 where
  pub now : ℕ
  pub timeline_id : String
  pub event_id : String
  pub assert_ready : Tx (Unit {0})

abbrev reserved_transition_payload_keys : List String
reserved_transition_payload_keys =
    "category" ∷ "causationId" ∷ "correlationId" ∷ "data" ∷ "eventId" ∷ "eventType" ∷ "from"
    ∷ "incidentId" ∷ "occurredAt" ∷ "payload" ∷ "runId" ∷ "schemaVersion" ∷ "sequence" ∷ "tenantId"
    ∷ "timelineId" ∷ "to" ∷ "type" ∷ []

payload_is_rejected : Payload → Bool
unfolding any
payload_is_rejected payload =
    not (bounded_json_object payload)
    || ltb 30 (length payload)
    || any (λ entry. any (λ key. key == entry.0) reserved_transition_payload_keys) payload

abbrev status_text : IncidentStatus → String
status_text received = "received"
status_text investigating = "investigating"
status_text awaiting_approval = "awaiting_approval"
status_text approved = "approved"
status_text rejected = "rejected"
status_text containing = "containing"
status_text contained = "contained"
status_text failed = "failed"
status_text closed = "closed"

-- The SET clause; the row is the one that the WHERE clause accepts.
abbrev pub transitioned : IncidentStatus → ℕ → IncidentRow → IncidentRow
transitioned to occurred_at row = record row {
  status = to;
  version = row.version + 1;
  timeline_sequence = row.timeline_sequence + 1;
  updated_at = occurred_at;
  closed_at = if to == closed then some occurred_at else row.closed_at;
}

unfoldable pub transition_incident : TransitionInput → TransitionDependencies → Tx Incident
unfolding payload_is_rejected
transition_incident input deps = do
  throw_if (input.to == approved || input.to == rejected) validation_failed
  throw_if (payload_is_rejected input.payload) validation_failed
  deps.assert_ready
  current ← read (λ db. incident_at db input.tenant_id input.incident_id)
  old ← expect current not_found
  throw_if (ltb deps.now old.updated_at) conflict
  throw_if (not (can_transition old.status input.to)) invalid_transition
  updated ←
      update_incident input.tenant_id input.incident_id
        (λ row.
          row.status == old.status
          && row.version == input.expected_version
          && leb row.updated_at deps.now)
        (transitioned input.to deps.now)
  row ← expect updated conflict
  insert_timeline_and_outbox (record {
    timeline_id = deps.timeline_id;
    event_id = deps.event_id;
    incident_id = input.incident_id;
    tenant_id = input.tenant_id;
    sequence = row.timeline_sequence;
    type = "incident.status_changed";
    event_type = incident_updated;
    run_id = input.run_id;
    correlation_id = input.correlation_id;
    causation_id = input.causation_id;
    occurred_at = deps.now;
    payload =
        input.payload
        ++ ("from", str (status_text old.status)) ∷ ("to", str (status_text input.to)) ∷ [];
  })
  incident_from_row row
