-- ===== src/Lifecycle/Deliveries.antt =====
-- An alert that is delivered to an empty database, and delivered again.
use template_security_incide.Prelude.{
  String, Bool, true, false, none, some, [], ◌≡◌, refl, empty, put, any, all, first_row, where_rows,
}
use template_security_incide.Schemas.Common.{
  opaque_id, trimmed_within, bounded_json_object, code_points, utf16_length,
}
use template_security_incide.Schemas.Incident.{unauthorized_privilege_change, received}
use template_security_incide.Schemas.Alert.{Alert, parse_alert}
use template_security_incide.Store.Rows.{Db}
use template_security_incide.Store.Tx.{Result, ok, pure, transaction, steps}
use template_security_incide.Store.ContainmentWrites.{is_sized}
use template_security_incide.Incidents.Read.{Incident, get_incident}
use template_security_incide.Incidents.Equivalence.{
  alerts_are_equivalent, same_command, command_changes, same_entries, identity_unchanged,
  alert_ordering_object, stored_ordering_object, membership_of, without_derived,
}
use template_security_incide.Incidents.Create.{
  OperationDependencies, pass, Creation, alert_at, existing_identity, newer_in_stream,
  insert_incident, insert_alert, write_incident, after_preflight, ingest, ingest_ordered,
  create_body, recover, handled, attempt_body, after_failure, after_attempt, attempts, begin,
  create_incident_from_alert_result,
}
use template_security_incide.Lifecycle.Fixtures.{running}
use template_security_incide.Lifecycle.Gapless.{Gapless, sequences_of}
use template_security_incide.Lifecycle.Created.{NoHooks, Delivered, create_incident-Delivered}
use template_security_incide.Lifecycle.Arrivals.{create_incident-Gapless}
use template_security_incide.Lifecycle.Redelivery.{Known, redelivery_is_duplicate}

abbrev no_rows : Db
no_rows = record {
  incidents = empty;
  alerts = [];
  timeline_events = [];
  outbox_events = [];
  dead_letter_events = [];
  workflow_runs = empty;
  containment_plans = empty;
  approvals = empty;
  approval_resume_tokens = [];
  containment_actions = [];
  containment_action_attempts = [];
  provider_effect_ledger = [];
  mock_containment_effects = [];
  containment_gateway_audit = [];
}

abbrev alert : Alert
alert = record {
  alert_id = "alert-1";
  source = "workos";
  source_event_id = "event-1";
  kind = unauthorized_privilege_change;
  occurred_at = 90;
  tenant_id = "tenant-1";
  subject_id = "user-1";
  session_id = some "session-1";
  device_id = none;
  ip = none;
  actor = record { id = "admin-1"; type = "user"; display_name = none };
  target = record { id = "user-1"; type = "user" };
  changes = none;
  raw_payload_ref = "raw-1";
  idempotency_key = "workos:event-1";
}

abbrev is_ip : String → Bool
is_ip text = false

abbrev delivery : Bool → OperationDependencies
delivery enforce_alert_ordering = record {
  now = 100;
  incident_id = "inc-1";
  timeline_id = "time-1";
  event_id = "evt-1";
  correlation_id = none;
  phase10_trace = none;
  enforce_alert_ordering = enforce_alert_ordering;
  preflight_alert = λ a id. pure pass;
  before_incident_write = λ a id. pure none;
  busy_select = false;
  busy = λ attempt. false;
  busy_read = λ attempt. false;
}

hookless : (ordered : Bool) → NoHooks (delivery ordered)
unfolding pure
hookless ordered = record { passes = λ a id db. refl; enriches_nothing = λ a id db. refl }

-- Opens everything that a delivery computes.
unfoldable delivering : Unit {0}
unfolding running steps transaction opaque_id trimmed_within bounded_json_object code_points
    utf16_length parse_alert is_sized alert_at existing_identity newer_in_stream insert_incident
    insert_alert write_incident after_preflight ingest ingest_ordered create_body recover handled
    attempt_body after_failure after_attempt attempts begin create_incident_from_alert_result
    alerts_are_equivalent same_command command_changes same_entries identity_unchanged
    alert_ordering_object stored_ordering_object membership_of without_derived get_incident all
    where_rows first_row any put empty sequences_of
delivering = tt

abbrev delivered : Result Creation × Db
delivered = create_incident_from_alert_result is_ip (delivery true) alert no_rows

abbrev incident : Incident
incident = record {
  incident_id = "inc-1";
  tenant_id = "tenant-1";
  subject_id = "user-1";
  kind = unauthorized_privilege_change;
  severity = none;
  status = received;
  version = 0;
  timeline_sequence = 1;
  created_at = 100;
  updated_at = 100;
  closed_at = none;
}

creates : delivered.0 ≡ ok (record { incident = incident; duplicate = false })
unfolding delivering
creates = refl

parses : parse_alert is_ip alert ≡ some alert
unfolding delivering
parses = refl

canonical : opaque_id "inc-1" ≡ some "inc-1"
unfolding delivering
canonical = refl

unheard : sequences_of "inc-1" no_rows.timeline_events ≡ []
unfolding delivering
unheard = refl

no_rows-Gapless : Gapless no_rows
unfolding empty
no_rows-Gapless = record { canonical = λ id row found. cc; numbered = λ id row found. cc }

create_incident-Delivered_example : Delivered is_ip (delivery true) alert no_rows delivered
create_incident-Delivered_example =
    create_incident-Delivered is_ip (delivery true) alert alert no_rows (hookless true) parses

create_incident-Gapless_example : Gapless delivered.1
create_incident-Gapless_example =
    create_incident-Gapless is_ip (delivery true) alert alert no_rows (hookless true) parses
      canonical unheard no_rows-Gapless

known : Known is_ip alert incident delivered.1
unfolding delivering
known = record {
  row = _;
  incident_row = _;
  found = refl;
  equivalent = refl;
  same_tenant = refl;
  incident_found = refl;
  readable = refl;
}

redelivery_is_duplicate_example :
    create_incident_from_alert_result is_ip (delivery false) alert delivered.1
    ≡ (ok (record { incident = incident; duplicate = true }), delivered.1)
redelivery_is_duplicate_example =
    redelivery_is_duplicate is_ip (delivery false) alert alert incident delivered.1 (hookless false)
      refl refl parses known
