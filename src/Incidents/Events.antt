-- ===== src/Incidents/Events.antt =====
-- insertTimelineAndOutbox of src/db/incident-operations.ts: one event goes to the incident's
-- timeline and to the outbox, after both have been parsed by their schemas.
use template_security_incide.Prelude.{ℕ, String, Option, none}
use template_security_incide.Schemas.Common.{Payload}
use template_security_incide.Schemas.Events.{
  DomainEventType, DomainEvent, TimelineWrite, parse_domain_event, parse_timeline_write,
}
use template_security_incide.Domain.Errors.{validation_failed}
use template_security_incide.Store.Rows.{TimelineRow, OutboxRow}
use template_security_incide.Store.Tx.{Tx, ◌>>=◌, ◌>>◌, expect}
use template_security_incide.Store.Writes.{insert_timeline, insert_outbox}

pub record EventInput : Type 0 where
  pub timeline_id : String
  pub event_id : String
  pub incident_id : String
  pub tenant_id : String
  pub sequence : ℕ
  pub type : String
  pub event_type : DomainEventType
  pub run_id : String
  pub correlation_id : String
  pub causation_id : Option String
  pub occurred_at : ℕ
  pub payload : Payload

abbrev pub timeline_write : EventInput → TimelineWrite
timeline_write input = record {
  timeline_id = input.timeline_id;
  incident_id = input.incident_id;
  tenant_id = input.tenant_id;
  sequence = input.sequence;
  type = input.type;
  correlation_id = input.correlation_id;
  causation_id = input.causation_id;
  occurred_at = input.occurred_at;
  payload = input.payload;
}

abbrev pub domain_event : EventInput → DomainEvent
domain_event input = record {
  type = input.event_type;
  run_id = input.run_id;
  event_id = input.event_id;
  occurred_at = input.occurred_at;
  incident_id = input.incident_id;
  tenant_id = input.tenant_id;
  correlation_id = input.correlation_id;
  causation_id = input.causation_id;
  payload = input.payload;
}

-- Both inserts write the payload that the domain event's schema has parsed.
abbrev pub timeline_row : TimelineWrite → Payload → TimelineRow
timeline_row w payload = record {
  id = w.timeline_id;
  incident_id = w.incident_id;
  tenant_id = w.tenant_id;
  sequence = w.sequence;
  type = w.type;
  correlation_id = w.correlation_id;
  causation_id = w.causation_id;
  payload = payload;
  occurred_at = w.occurred_at;
}

abbrev pub outbox_row : DomainEvent → OutboxRow
outbox_row e = record {
  id = e.event_id;
  type = e.type;
  run_id = e.run_id;
  incident_id = e.incident_id;
  tenant_id = e.tenant_id;
  correlation_id = e.correlation_id;
  causation_id = e.causation_id;
  payload = e.payload;
  occurred_at = e.occurred_at;
  available_at = e.occurred_at;
  published_at = none;
  attempt_count = 0;
  error_code = none;
}

unfoldable pub insert_timeline_and_outbox : EventInput → Tx (Unit {0})
insert_timeline_and_outbox input = do
  timeline ← expect (parse_timeline_write (timeline_write input)) validation_failed
  event ← expect (parse_domain_event (domain_event input)) validation_failed
  insert_timeline (timeline_row timeline event.payload)
  insert_outbox (outbox_row event)
