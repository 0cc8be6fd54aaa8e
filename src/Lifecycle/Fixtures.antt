-- ===== src/Lifecycle/Fixtures.antt =====
-- An incident on which the operations are run.
use template_security_incide.Prelude.{
  String, Bool, true, false, none, some, [], ◌∷◌, ◌≡◌, refl, string_eq, put, empty, any,
}
use template_security_incide.Schemas.Common.{
  str, opaque_id, is_canonical_tenant_id, bounded_json_object, short_text, trim, code_points,
  utf16_length,
}
use template_security_incide.Schemas.Incident.{
  unauthorized_privilege_change, IncidentStatus, received, closed,
}
use template_security_incide.Schemas.Events.{parse_timeline_write, parse_domain_event}
use template_security_incide.Domain.IncidentState.{can_transition}
use template_security_incide.Store.Rows.{Db, IncidentRow, TimelineRow}
use template_security_incide.Store.Tx.{Result, ok, err, pure, pure-eq-ok, ReadsOnly, steps}
use template_security_incide.Store.Writes.{
  incident_at, update_incident, insert_timeline, insert_outbox,
}
use template_security_incide.Incidents.Events.{insert_timeline_and_outbox}
use template_security_incide.Incidents.Read.{Incident, incident_from_row}
use template_security_incide.Incidents.Transition.{
  TransitionInput, TransitionDependencies, transition_incident,
}

abbrev pub incident : IncidentStatus → IncidentRow
incident status = record {
  id = "inc-1";
  tenant_id = "tenant-1";
  kind = unauthorized_privilege_change;
  subject_id = "user-1";
  status = status;
  severity = none;
  version = 3;
  timeline_sequence = 1;
  current_plan_id = some "plan-1";
  current_run_id = some "run-1";
  created_at = 100;
  updated_at = 200;
  closed_at = none;
}

abbrev pub plan_hash : String
plan_hash = "aaaaaaaaaaaaaaaaaaaaaaaaaaaaaaaaaaaaaaaaaaaaaaaaaaaaaaaaaaaaaaaa"

abbrev pub first_event : TimelineRow
first_event = record {
  id = "time-1";
  incident_id = "inc-1";
  tenant_id = "tenant-1";
  sequence = 1;
  type = "alert.received";
  correlation_id = "corr-1";
  causation_id = none;
  payload = [];
  occurred_at = 100;
}

abbrev pub db_with : IncidentStatus → Db
db_with status = record {
  incidents = put "inc-1" (incident status) empty;
  alerts = [];
  timeline_events = first_event ∷ [];
  outbox_events = [];
  dead_letter_events = [];
  workflow_runs = empty;
  containment_plans =
      put "plan-1"
        (record {
          id = "plan-1";
          incident_id = "inc-1";
          tenant_id = "tenant-1";
          plan_hash_version = 1;
          plan_hash = plan_hash;
          expires_at = 900;
          created_at = 150;
        })
        empty;
  approvals =
      put "approval-1"
        (record {
          id = "approval-1";
          plan_id = "plan-1";
          incident_id = "inc-1";
          tenant_id = "tenant-1";
          plan_hash_version = 1;
          plan_hash = plan_hash;
          requested_at = 200;
          expires_at = 900;
          workflow_run_id = "run-1";
          decided = none;
        })
        empty;
  approval_resume_tokens = [];
  containment_actions = [];
  containment_action_attempts = [];
  provider_effect_ledger = [];
  mock_containment_effects = [];
  containment_gateway_audit = [];
}

abbrev pub answer_or : {A : Type 0} → A → Result (A × Db) → A
answer_or a (ok (b, db)) = b
answer_or a (err e) = a

abbrev pub db_or : {A : Type 0} → Db → Result (A × Db) → Db
db_or d (ok (b, db)) = db
db_or d (err e) = d

abbrev pub is_ok : {A : Type 0} → Result (A × Db) → Bool
is_ok (ok _) = true
is_ok (err _) = false

pub returned :
    {A : Type 0} (a : A) (d : Db) (r : Result (A × Db))
    → is_ok r ≡ true
    → r ≡ ok (answer_or a r, db_or d r)
returned a d (ok (b, db)) h = refl
returned a d (err e) h = cc

abbrev pub no_incident : Incident
no_incident = record {
  incident_id = "";
  tenant_id = "";
  subject_id = "";
  kind = unauthorized_privilege_change;
  severity = none;
  status = received;
  version = 0;
  timeline_sequence = 0;
  created_at = 0;
  updated_at = 0;
  closed_at = none;
}

abbrev pub at_300 : TransitionDependencies
at_300 = record { now = 300; timeline_id = "time-2"; event_id = "evt-2"; assert_ready = pure tt }

abbrev pub to_closed : TransitionInput
to_closed = record {
  tenant_id = "tenant-1";
  incident_id = "inc-1";
  expected_version = 3;
  to = closed;
  run_id = "run-1";
  correlation_id = "corr-1";
  causation_id = none;
  payload = ("actor", str "analyst") ∷ [];
}

pub at_300-ReadsOnly : ReadsOnly at_300.assert_ready
at_300-ReadsOnly db db' h = (pure-eq-ok tt db h).1

-- Opens everything that a run of an operation computes.
unfoldable pub running : Unit {0}
unfolding transition_incident steps can_transition incident_at update_incident
    insert_timeline_and_outbox parse_timeline_write parse_domain_event opaque_id short_text
    is_canonical_tenant_id bounded_json_object insert_timeline insert_outbox incident_from_row any
    put empty trim code_points utf16_length
running = tt
