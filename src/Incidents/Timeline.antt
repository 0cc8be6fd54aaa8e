-- ===== src/Incidents/Timeline.antt =====
-- appendTimelineEvent and listTimelineEvents of src/db/timeline-operations.ts: events that do not
-- change an incident's status.
use template_security_incide.Prelude.{
  ℕ, ◌+◌, String, ◌&&◌, Option, some, List, ltb, leb, ◌==◌, string_eq, if◌then◌else◌, where_rows,
  [], ◌∷◌,
}
use template_security_incide.Schemas.Common.{Payload, opaque_id, short_text, bounded_json_object}
use template_security_incide.Schemas.Parsing
use template_security_incide.Schemas.Parsing.{refine, optional_id}
use template_security_incide.Schemas.Events.{TimelineWrite, parse_timeline_write}
use template_security_incide.Domain.Errors.{not_found, conflict, validation_failed}
use template_security_incide.Store.Rows.{IncidentRow, TimelineRow}
use template_security_incide.Store.Tx.{Tx, ◌>>=◌, ◌>>◌, pure, read, expect, expect_or}
use template_security_incide.Store.Writes.{has_incident, update_incident, insert_timeline}
use template_security_incide.Incidents.Events.{timeline_row}

pub record AppendInput : Type 0 where
  pub incident_id : String
  pub tenant_id : String
  pub type : String
  pub correlation_id : String
  pub causation_id : Option String
  pub payload : Payload

-- AppendTimelineEventInputSchema.safeParse
unfoldable pub parse_append_input : AppendInput → Option AppendInput
parse_append_input e = Parsing.◌>>=◌ (opaque_id e.incident_id) λ incident_id.
    Parsing.◌>>=◌ (opaque_id e.tenant_id) λ tenant_id. Parsing.◌>>=◌ (short_text e.type) λ type.
      Parsing.◌>>=◌ (opaque_id e.correlation_id) λ correlation_id.
        Parsing.◌>>=◌ (optional_id e.causation_id) λ causation_id.
          Parsing.◌>>◌ (refine (bounded_json_object e.payload)) (
            some (record {
              incident_id = incident_id;
              tenant_id = tenant_id;
              type = type;
              correlation_id = correlation_id;
              causation_id = causation_id;
              payload = e.payload;
            }))

abbrev pub numbered : ℕ → IncidentRow → IncidentRow
numbered occurred_at row = record row {
  timeline_sequence = row.timeline_sequence + 1;
  updated_at = occurred_at;
}

unfoldable pub append_timeline_event :
    AppendInput → (id : String) (occurred_at : ℕ) → Tx TimelineWrite
append_timeline_event input id occurred_at = do
  parsed ← expect (parse_append_input input) validation_failed
  updated ←
      update_incident parsed.tenant_id parsed.incident_id (λ row. leb row.updated_at occurred_at)
        (numbered occurred_at)
  row ←
      expect_or updated
        (λ db. if has_incident db parsed.tenant_id parsed.incident_id then conflict else not_found)
  event ←
      expect
        (parse_timeline_write (record {
          timeline_id = id;
          incident_id = parsed.incident_id;
          tenant_id = parsed.tenant_id;
          sequence = row.timeline_sequence;
          type = parsed.type;
          correlation_id = parsed.correlation_id;
          causation_id = parsed.causation_id;
          occurred_at = occurred_at;
          payload = parsed.payload;
        }))
        validation_failed
  insert_timeline (timeline_row event event.payload)
  pure event

insert_by_sequence : TimelineRow → List TimelineRow → List TimelineRow
insert_by_sequence e [] = e ∷ []
insert_by_sequence e (f ∷ rest) =
    if leb e.sequence f.sequence then e ∷ f ∷ rest else f ∷ insert_by_sequence e rest

-- ORDER BY sequence
order_by_sequence : List TimelineRow → List TimelineRow
unfolding insert_by_sequence
order_by_sequence [] = []
order_by_sequence (e ∷ rest) = insert_by_sequence e (order_by_sequence rest)

pub record TimelineEvent : Type 0 where
  pub id : String
  pub incident_id : String
  pub tenant_id : String
  pub sequence : ℕ
  pub type : String
  pub occurred_at : ℕ
  pub payload : Payload

-- TimelineEventSchema.safeParse
parse_timeline_event : TimelineEvent → Option TimelineEvent
parse_timeline_event e = Parsing.◌>>=◌ (opaque_id e.id) λ id.
    Parsing.◌>>=◌ (opaque_id e.incident_id) λ incident_id.
      Parsing.◌>>=◌ (opaque_id e.tenant_id) λ tenant_id. Parsing.◌>>=◌ (short_text e.type) λ type.
        Parsing.◌>>◌ (refine (ltb 0 e.sequence && bounded_json_object e.payload)) (
          some
            (record e { id = id; incident_id = incident_id; tenant_id = tenant_id; type = type }))

-- A row as the schema of what is written reads it, and that as the schema of what is answered does.
event_of_row : TimelineRow → Option TimelineEvent
unfolding parse_timeline_event
event_of_row row =
    Parsing.◌>>=◌
      (parse_timeline_write (record {
        timeline_id = row.id;
        incident_id = row.incident_id;
        tenant_id = row.tenant_id;
        sequence = row.sequence;
        type = row.type;
        correlation_id = row.correlation_id;
        causation_id = row.causation_id;
        occurred_at = row.occurred_at;
        payload = row.payload;
      }))
      λ persisted. parse_timeline_event (record {
        id = persisted.timeline_id;
        incident_id = persisted.incident_id;
        tenant_id = persisted.tenant_id;
        sequence = persisted.sequence;
        type = persisted.type;
        occurred_at = persisted.occurred_at;
        payload = persisted.payload;
      })

events_of_rows : List TimelineRow → Option (List TimelineEvent)
unfolding event_of_row
events_of_rows [] = some []
events_of_rows (row ∷ rest) =
    Parsing.◌>>=◌ (event_of_row row) λ e. Parsing.◌>>=◌ (events_of_rows rest) λ es. some (e ∷ es)

pub list_timeline_events : (tenant_id incident_id : String) → Tx (List TimelineEvent)
unfolding order_by_sequence where_rows events_of_rows
list_timeline_events tenant_id incident_id = do
  rows ← read (λ db. order_by_sequence (
      where_rows (λ r. r.tenant_id == tenant_id && r.incident_id == incident_id)
        db.timeline_events))
  expect (events_of_rows rows) validation_failed
