-- ===== src/Lifecycle/Histories.antt =====
-- Starts, appended events, and a history of several operations.
use template_security_incide.Prelude.{
  ℕ, String, true, false, none, some, [], ◌≡◌, ◌⊎◌, refl, ◌==◌, string_eq, str_eq_iff, Bool-cases,
  inl, inr, arith, put, empty, first_row,
}
use template_security_incide.Schemas.Common.{opaque_id}
use template_security_incide.Schemas.Incident.{received, failed, closed}
use template_security_incide.Schemas.Events.{TimelineWrite}
use template_security_incide.Store.Rows.{Db, IncidentRow}
use template_security_incide.Store.Tx.{Result, ok}
use template_security_incide.Incidents.Timeline.{
  AppendInput, append_timeline_event, parse_append_input,
}
use template_security_incide.Incidents.Start.{
  StartInput, StartDependencies, Started, TraceReading, not_json, materialize_investigation_start,
  start_body, begin_investigation, insert_run, phase10_trace, trace_text,
}
use template_security_incide.Approvals.Decision.{ApprovalDecision}
use template_security_incide.Lifecycle.Fixtures.{
  incident, db_with, db_or, is_ok, returned, no_incident, at_300, to_closed, at_300-ReadsOnly,
  running,
}
use template_security_incide.Lifecycle.Step.{Advances, Extends, Stays}
use template_security_incide.Lifecycle.History.{Grows}
use template_security_incide.Lifecycle.Gapless.{Gapless, sequences_of, up_to}
use template_security_incide.Lifecycle.Appended.{append_timeline_event-Extends}
use template_security_incide.Lifecycle.Starts.{
  materialize_investigation_start-Advances, materialize_investigation_start_once,
}
use template_security_incide.Lifecycle.Examples.{closing, closing_returns}
use template_security_incide.Lifecycle.Trace.{
  Step, transition, event, History, done, ◌and_then◌, AbstractStep, Step-AbstractStep,
  History-Gapless, History-Grows, History-closed,
}

abbrev start_input : StartInput
start_input = record {
  event_id = "evt-1";
  incident_id = "inc-1";
  tenant_id = "tenant-1";
  alert_id = "alert-1";
  correlation_id = "corr-1";
}

abbrev start_at : ℕ → StartDependencies
start_at now = record { now = now; timeline_id = "time-2"; event_id = "evt-2" }

abbrev no_trace : String → TraceReading
no_trace text = not_json

abbrev starting : Result Started × Db
starting = materialize_investigation_start no_trace start_input (start_at 300) (db_with received)

starts : starting ≡ (ok (record { duplicate = false; run_id = "evt-1" }), starting.1)
unfolding running materialize_investigation_start start_body begin_investigation insert_run
    phase10_trace trace_text first_row
starts = refl

materialize_investigation_start-Advances_example :
    (false ≡ false) × Advances "tenant-1" "inc-1" (db_with received) starting.1
    ⊎ (false ≡ true) × (starting.1 ≡ db_with received)
materialize_investigation_start-Advances_example =
    materialize_investigation_start-Advances no_trace start_input (start_at 300) (db_with received)
      starts

materialize_investigation_start_once_example :
    materialize_investigation_start no_trace start_input (start_at 400) starting.1
    ≡ (ok (record { duplicate = true; run_id = "evt-1" }), starting.1)
materialize_investigation_start_once_example =
    materialize_investigation_start_once no_trace start_input (start_at 300) (start_at 400)
      (db_with received) starts

abbrev note : AppendInput
note = record {
  incident_id = "inc-1";
  tenant_id = "tenant-1";
  type = "analyst.note";
  correlation_id = "corr-1";
  causation_id = none;
  payload = [];
}

abbrev no_event : TimelineWrite
no_event = record {
  timeline_id = "";
  incident_id = "";
  tenant_id = "";
  sequence = 0;
  type = "";
  correlation_id = "";
  causation_id = none;
  occurred_at = 0;
  payload = [];
}

abbrev noting : Result (TimelineWrite × Db)
noting = append_timeline_event note "time-2" 300 (db_with closed)

noting_returns : is_ok noting ≡ true
unfolding running append_timeline_event parse_append_input
noting_returns = refl

abbrev noted : Db
noted = db_or (db_with closed) noting

append_timeline_event-Extends_example :
    (parsed : AppendInput) × (parse_append_input note ≡ some parsed)
    × Extends Stays parsed.tenant_id parsed.incident_id (db_with closed) noted
append_timeline_event-Extends_example =
    append_timeline_event-Extends note "time-2" 300 (db_with closed)
      (returned no_event (db_with closed) noting noting_returns)

abbrev same_text : String → String
same_text s = s

abbrev plain_fingerprint : ApprovalDecision → String → String
plain_fingerprint d run_id = run_id

close-Step :
    Step same_text plain_fingerprint no_trace (db_with failed) (db_or (db_with failed) closing)
close-Step =
    transition to_closed at_300 at_300-ReadsOnly
      (returned no_incident (db_with failed) closing closing_returns)

note-Step : Step same_text plain_fingerprint no_trace (db_with closed) noted
note-Step = event note "time-2" 300 (returned no_event (db_with closed) noting noting_returns)

close-History :
    History same_text plain_fingerprint no_trace (db_with failed) (db_or (db_with failed) closing)
close-History = done and_then close-Step

note-History : History same_text plain_fingerprint no_trace (db_with closed) noted
note-History = done and_then note-Step

Step-AbstractStep_example : AbstractStep (db_with failed) (db_or (db_with failed) closing)
Step-AbstractStep_example = Step-AbstractStep same_text plain_fingerprint no_trace close-Step

one_id :
    (id : String) (row : IncidentRow)
    → (db_with failed).incidents id ≡ some row
    → ("inc-1" ≡ id) × (row ≡ incident failed)
unfolding put empty
one_id id row h = elim (Bool-cases ("inc-1" == id)) [
  | inl same ↦ ((str_eq_iff "inc-1" id).0 same, ground (arith, same))
  | inr other ↦ ground (arith, other)
]

inc-1-canonical : opaque_id "inc-1" ≡ some "inc-1"
unfolding running
inc-1-canonical = refl

failed-Gapless : Gapless (db_with failed)
unfolding sequences_of up_to
failed-Gapless = record {
  canonical = λ id row h. rw (← (one_id id row h).0) inc-1-canonical;
  numbered = λ id row h. rw (← (one_id id row h).0, (one_id id row h).1) refl;
}

History-Gapless_example : Gapless (db_or (db_with failed) closing)
History-Gapless_example =
    History-Gapless same_text plain_fingerprint no_trace close-History failed-Gapless

History-Grows_example : Grows (db_with failed) (db_or (db_with failed) closing)
History-Grows_example = History-Grows same_text plain_fingerprint no_trace close-History

there : (db_with closed).incidents "inc-1" ≡ some (incident closed)
unfolding put
there = refl

History-closed_example :
    (new : IncidentRow) × (noted.incidents "inc-1" ≡ some new)
    × (new.status ≡ closed)
    × (new.version ≡ (incident closed).version)
History-closed_example = History-closed same_text plain_fingerprint no_trace note-History there refl
