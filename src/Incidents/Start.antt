-- ===== src/Incidents/Start.antt =====
-- src/db/workflow-run-operations.ts: the start of the investigation that an alert's event asks for.
-- Whether a text is a trace carrier is answered by JSON.parse and zod, the parameter `read_trace`.
use template_security_incide.Prelude.{
  ℕ, ◌+◌, String, Bool, true, false, not, ◌&&◌, Option, none, some, [], ◌∷◌, any, first_row, ◌==◌,
  string_eq, option_eq, nat_eq, put, if◌then◌else◌,
}
use template_security_incide.Schemas.Common.{Payload, str}
use template_security_incide.Schemas.Incident.{received, investigating, status_eq}
use template_security_incide.Schemas.Events.{workflow_updated}
use template_security_incide.Domain.Errors.{not_found, conflict, storage_unavailable, domain_error}
use template_security_incide.Store.Rows.{Db, IncidentRow, OutboxRow, DeadLetterRow, WorkflowRunRow}
use template_security_incide.Store.Tx.{
  Result, Tx, ok, err, ◌>>=◌, ◌>>◌, pure, throw, throw_if, read, expect, transaction,
}
use template_security_incide.Store.Writes.{incident_at, has_incident, update_incident}
use template_security_incide.Incidents.Events.{insert_timeline_and_outbox}

pub record StartInput : Type 0 where
  pub event_id : String
  pub incident_id : String
  pub tenant_id : String
  pub alert_id : String
  pub correlation_id : String

pub record StartDependencies : Type 0 where
  pub now : ℕ
  pub timeline_id : String
  pub event_id : String

pub record Started : Type 0 where
  pub duplicate : Bool
  pub run_id : String

-- What reading the text of a trace carrier answers.
pub data TraceReading : Type 0 where
  not_json not_a_carrier : TraceReading
  carrier : String → TraceReading

abbrev pub incident_ingestion_workflow_id : String
incident_ingestion_workflow_id = "incident-ingestion-workflow"

-- WHERE source_outbox_id = ? AND resolved_at IS NULL
abbrev pub unresolved : String → DeadLetterRow → Bool
unresolved outbox_id d = d.source_outbox_id == outbox_id && d.resolved_at == none

unfoldable pub is_equivalent_marker : WorkflowRunRow → StartInput → Bool
is_equivalent_marker run input =
    run.incident_id == input.incident_id
    && run.tenant_id == input.tenant_id
    && run.workflow_id == incident_ingestion_workflow_id

unfoldable pub trace_text : Payload → Option String
trace_text [] = none
trace_text ((key, str text) ∷ rest) = if key == "__phase10Trace" then some text else trace_text rest
trace_text ((key, other) ∷ rest) = if key == "__phase10Trace" then none else trace_text rest

-- INSERT INTO workflow_runs
unfoldable pub insert_run : WorkflowRunRow → Tx (Unit {0})
unfolding incident_at
insert_run run db = elim (db.workflow_runs run.run_id) [
  | some _ ↦ err (domain_error conflict)
  | none ↦
      if has_incident db run.tenant_id run.incident_id
      then ok (tt, record db { workflow_runs = put run.run_id run db.workflow_runs })
      else err (domain_error storage_unavailable)
]

abbrev pub run_of : StartInput → ℕ → Option String → WorkflowRunRow
run_of input now trace = record {
  run_id = input.event_id;
  incident_id = input.incident_id;
  tenant_id = input.tenant_id;
  workflow_id = incident_ingestion_workflow_id;
  started_at = now;
  phase10_trace = trace;
}

abbrev pub under_investigation : String → ℕ → IncidentRow → IncidentRow
under_investigation run_id now row = record row {
  status = investigating;
  current_run_id = some run_id;
  version = row.version + 1;
  timeline_sequence = row.timeline_sequence + 1;
  updated_at = now;
}

module _ (read_trace : String → TraceReading) where
  -- A text that is no JSON is a conflict; one that is no carrier is an error of no domain code.
  unfoldable pub phase10_trace : Option OutboxRow → Tx (Option String)
  unfolding trace_text
  phase10_trace none = pure none
  phase10_trace (some source) = elim (trace_text source.payload) [
    | none ↦ pure none
    | some text ↦ elim (read_trace text) [
      | not_json ↦ throw conflict
      | not_a_carrier ↦ throw storage_unavailable
      | carrier trace ↦ pure (some trace)
    ]
  ]

  -- The part of the transaction behind its two early returns.
  unfoldable pub begin_investigation : StartInput → StartDependencies → Tx Started
  begin_investigation input deps = do
    found ← read (λ db. incident_at db input.tenant_id input.incident_id)
    incident ← expect found not_found
    throw_if (not (incident.status == received)) conflict
    source ← read (λ db. first_row (λ o. o.id == input.event_id) db.outbox_events)
    trace ← phase10_trace source
    insert_run (run_of input deps.now trace)
    updated ←
        update_incident input.tenant_id input.incident_id (λ row. row.status == received)
          (under_investigation input.event_id deps.now)
    row ← expect updated conflict
    insert_timeline_and_outbox (record {
      timeline_id = deps.timeline_id;
      event_id = deps.event_id;
      incident_id = input.incident_id;
      tenant_id = input.tenant_id;
      sequence = row.timeline_sequence;
      type = "workflow.investigation_started";
      event_type = workflow_updated;
      run_id = input.event_id;
      correlation_id = input.correlation_id;
      causation_id = some input.event_id;
      occurred_at = deps.now;
      payload = ("alertId", str input.alert_id) ∷ ("status", str "investigating") ∷ [];
    })
    pure (record { duplicate = false; run_id = input.event_id })

  unfoldable pub start_body : StartInput → StartDependencies → Tx Started
  start_body input deps db =
      if any (unresolved input.event_id) db.dead_letter_events
      then ok (record { duplicate = true; run_id = input.event_id }, db)
      else elim (db.workflow_runs input.event_id) [
        | some run ↦
            if is_equivalent_marker run input
            then ok (record { duplicate = true; run_id = input.event_id }, db)
            else err (domain_error conflict)
        | none ↦ begin_investigation input deps db
      ]

  -- The handler of the `catch`, on the database as the transaction has left it.
  recover_start : StartInput → Result Started × Db → Result Started × Db
  recover_start input (ok started, db) = (ok started, db)
  recover_start input (err e, db) = elim (db.workflow_runs input.event_id) [
    | none ↦ (err e, db)
    | some run ↦
        if is_equivalent_marker run input
        then (ok (record { duplicate = true; run_id = input.event_id }), db)
        else (err (domain_error conflict), db)
  ]

  unfoldable pub materialize_investigation_start :
      StartInput → StartDependencies → Db → Result Started × Db
  unfolding recover_start transaction
  materialize_investigation_start input deps db =
      recover_start input (transaction (start_body input deps) db)
