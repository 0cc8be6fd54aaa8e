-- ===== src/Schemas/Events.antt =====
-- src/schemas/domain-event.ts and src/db/timeline-schema.ts: what is published, and what is written
-- to an incident's timeline.
use template_security_incide.Prelude.{ℕ, String, Option, some, ltb}
use template_security_incide.Schemas.Common.{
  Payload, opaque_id, short_text, is_canonical_tenant_id, bounded_json_object,
}
use template_security_incide.Schemas.Parsing.{◌>>=◌, ◌>>◌, refine, optional_id}

pub data DomainEventType : Type 0 where
  alert_received workflow_updated approval_requested approval_decided : DomainEventType
  containment_completed incident_updated dead_letter : DomainEventType

pub record DomainEvent : Type 0 where
  pub type : DomainEventType
  pub run_id : String
  pub event_id : String
  pub occurred_at : ℕ
  pub incident_id : String
  pub tenant_id : String
  pub correlation_id : String
  pub causation_id : Option String
  pub payload : Payload

pub record TimelineWrite : Type 0 where
  pub timeline_id : String
  pub incident_id : String
  pub tenant_id : String
  pub sequence : ℕ
  pub type : String
  pub correlation_id : String
  pub causation_id : Option String
  pub occurred_at : ℕ
  pub payload : Payload

-- DomainEventSchema.safeParse
unfoldable pub parse_domain_event : DomainEvent → Option DomainEvent
parse_domain_event e = do
  run_id ← opaque_id e.run_id
  event_id ← opaque_id e.event_id
  incident_id ← opaque_id e.incident_id
  refine (is_canonical_tenant_id e.tenant_id)
  correlation_id ← opaque_id e.correlation_id
  causation_id ← optional_id e.causation_id
  refine (bounded_json_object e.payload)
  some (record e {
    run_id = run_id;
    event_id = event_id;
    incident_id = incident_id;
    correlation_id = correlation_id;
    causation_id = causation_id;
  })

-- TimelineWriteSchema.safeParse
unfoldable pub parse_timeline_write : TimelineWrite → Option TimelineWrite
parse_timeline_write e = do
  timeline_id ← opaque_id e.timeline_id
  incident_id ← opaque_id e.incident_id
  tenant_id ← opaque_id e.tenant_id
  refine (ltb 0 e.sequence)
  type ← short_text e.type
  correlation_id ← opaque_id e.correlation_id
  causation_id ← optional_id e.causation_id
  refine (bounded_json_object e.payload)
  some (record e {
    timeline_id = timeline_id;
    incident_id = incident_id;
    tenant_id = tenant_id;
    type = type;
    correlation_id = correlation_id;
    causation_id = causation_id;
  })
