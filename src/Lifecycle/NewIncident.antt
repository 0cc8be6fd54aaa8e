-- ===== src/Lifecycle/NewIncident.antt =====
-- What a new incident is, and how its row is answered.
use template_security_incide.Prelude.{
  ℕ, String, ◌≡◌, inl, inr, some, none, Bool-cases, Option-cases, arith,
}
use template_security_incide.Schemas.Common.{opaque_id, is_canonical_tenant_id}
use template_security_incide.Schemas.Incident.{received}
use template_security_incide.Schemas.Alert.{Alert}
use template_security_incide.Store.Rows.{Db, IncidentRow}
use template_security_incide.Store.Tx.{ok, expect-eq-ok}
use template_security_incide.Incidents.Read.{Incident, incident_from_row, parse_incident_row}

-- The incident that is answered is the one that the row has.
pub record Reads (row : IncidentRow) (i : Incident) : Type 0 where
  pub incident_id : opaque_id row.id ≡ some i.incident_id
  pub tenant_id : i.tenant_id ≡ row.tenant_id
  pub subject_id : opaque_id row.subject_id ≡ some i.subject_id
  pub kind : i.kind ≡ row.kind
  pub severity : i.severity ≡ row.severity
  pub status : i.status ≡ row.status
  pub version : i.version ≡ row.version
  pub timeline_sequence : i.timeline_sequence ≡ row.timeline_sequence
  pub created_at : i.created_at ≡ row.created_at
  pub updated_at : i.updated_at ≡ row.updated_at
  pub closed_at : i.closed_at ≡ row.closed_at

parse_incident_row-Reads :
    (row : IncidentRow) (i : Incident) → parse_incident_row row ≡ some i → Reads row i
unfolding parse_incident_row
parse_incident_row-Reads row i h = elim (Option-cases (opaque_id row.id)) [
  | inl gone ↦ ground arith
  | inr (id, is_id) ↦ elim (Bool-cases (is_canonical_tenant_id row.tenant_id)) [
    | inr odd ↦ ground arith
    | inl canonical ↦ elim (Option-cases (opaque_id row.subject_id)) [
      | inl gone ↦ ground arith
      | inr (subject, is_subject) ↦ record {
        incident_id = ground arith;
        tenant_id = ground arith;
        subject_id = ground arith;
        kind = ground arith;
        severity = ground arith;
        status = ground arith;
        version = ground arith;
        timeline_sequence = ground arith;
        created_at = ground arith;
        updated_at = ground arith;
        closed_at = ground arith;
      }
    ]
  ]
]

pub incident_from_row-Reads :
    (row : IncidentRow) (db db' : Db) {i : Incident}
    → incident_from_row row db ≡ ok (i, db')
    → Reads row i
unfolding incident_from_row
incident_from_row-Reads row db db' {i} h =
    parse_incident_row-Reads row i (expect-eq-ok (parse_incident_row row) _ db h).0

-- A new incident: received, without a severity, a plan or a run, at version 0 and with one event.
pub record IsNew (alert : Alert) (id : String) (now : ℕ) (row : IncidentRow) : Type 0 where
  pub has_id : row.id ≡ id
  pub tenant : row.tenant_id ≡ alert.tenant_id
  pub subject : row.subject_id ≡ alert.subject_id
  pub kind : row.kind ≡ alert.kind
  pub status : row.status ≡ received
  pub severity : row.severity ≡ none
  pub version : row.version ≡ 0
  pub timeline_sequence : row.timeline_sequence ≡ 1
  pub current_plan : row.current_plan_id ≡ none
  pub current_run : row.current_run_id ≡ none
  pub created_at : row.created_at ≡ now
  pub updated_at : row.updated_at ≡ now
  pub closed_at : row.closed_at ≡ none
