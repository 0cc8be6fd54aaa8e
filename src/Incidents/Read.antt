-- ===== src/Incidents/Read.antt =====
-- incidentFromRow and getIncident of src/db/incident-operations.ts.
use template_security_incide.Prelude.{ℕ, String, Option, some}
use template_security_incide.Schemas.Common.{opaque_id, is_canonical_tenant_id}
use template_security_incide.Schemas.Incident.{IncidentKind, IncidentSeverity, IncidentStatus}
use template_security_incide.Schemas.Parsing
use template_security_incide.Schemas.Parsing.{refine}
use template_security_incide.Domain.Errors.{not_found, validation_failed}
use template_security_incide.Store.Rows.{IncidentRow}
use template_security_incide.Store.Tx.{Tx, ◌>>=◌, read, expect}
use template_security_incide.Store.Writes.{incident_at}

pub record Incident : Type 0 where
  pub incident_id : String
  pub tenant_id : String
  pub subject_id : String
  pub kind : IncidentKind
  pub severity : Option IncidentSeverity
  pub status : IncidentStatus
  pub version : ℕ
  pub timeline_sequence : ℕ
  pub created_at : ℕ
  pub updated_at : ℕ
  pub closed_at : Option ℕ

-- IncidentSchema.safeParse of a row's columns
unfoldable pub parse_incident_row : IncidentRow → Option Incident
parse_incident_row row = Parsing.◌>>=◌ (opaque_id row.id) λ incident_id.
    Parsing.◌>>◌ (refine (is_canonical_tenant_id row.tenant_id)) (
      Parsing.◌>>=◌ (opaque_id row.subject_id) λ subject_id. some (record {
        incident_id = incident_id;
        tenant_id = row.tenant_id;
        subject_id = subject_id;
        kind = row.kind;
        severity = row.severity;
        status = row.status;
        version = row.version;
        timeline_sequence = row.timeline_sequence;
        created_at = row.created_at;
        updated_at = row.updated_at;
        closed_at = row.closed_at;
      }))

unfoldable pub incident_from_row : IncidentRow → Tx Incident
unfolding parse_incident_row
incident_from_row row = expect (parse_incident_row row) validation_failed

unfoldable pub get_incident : String → String → Tx Incident
get_incident tenant_id incident_id = do
  found ← read (λ db. incident_at db tenant_id incident_id)
  row ← expect found not_found
  incident_from_row row
