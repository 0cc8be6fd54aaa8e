-- ===== src/Schemas/Alert.antt =====
-- src/schemas/alert.ts: a normalized alert. The kind of an actor or a target is a text of the enum.
-- Whether a text is an IP address is answered by zod, the parameter `is_ip`.
use template_security_incide.Prelude.{
  ℕ, String, Bool, true, Option, none, some, List, [], ◌∷◌, any, ◌==◌, string_eq,
}
use template_security_incide.Schemas.Common.{
  Payload, opaque_id, trimmed_within, bounded_json_object,
}
use template_security_incide.Schemas.Incident.{IncidentKind}
use template_security_incide.Schemas.Parsing.{◌>>=◌, ◌>>◌, refine, optional_id}

pub record Actor : Type 0 where
  pub id : String
  pub type : String
  pub display_name : Option String

pub record Target : Type 0 where
  pub id : String
  pub type : String

pub record Alert : Type 0 where
  pub alert_id : String
  pub source : String
  pub source_event_id : String
  pub kind : IncidentKind
  pub occurred_at : ℕ
  pub tenant_id : String
  pub subject_id : String
  pub session_id : Option String
  pub device_id : Option String
  pub ip : Option String
  pub actor : Actor
  pub target : Target
  pub changes : Option Payload
  pub raw_payload_ref : String
  pub idempotency_key : String

actor_types : List String
actor_types = "user" ∷ "service" ∷ "system" ∷ "unknown" ∷ []

target_types : List String
target_types = "user" ∷ "session" ∷ "membership" ∷ "device" ∷ "role" ∷ "resource" ∷ []

-- actorSchema
parse_actor : Actor → Option Actor
unfolding actor_types any
parse_actor a = do
  id ← opaque_id a.id
  refine (any (λ t. t == a.type) actor_types)
  display_name ← elim a.display_name [
    | none ↦ some none
    | some name ↦ elim (trimmed_within 128 name) [ none ↦ none | some t ↦ some (some t) ]
  ]
  some (record { id = id; type = a.type; display_name = display_name })

-- targetSchema
parse_target : Target → Option Target
unfolding target_types any
parse_target t = do
  id ← opaque_id t.id
  refine (any (λ u. u == t.type) target_types)
  some (record { id = id; type = t.type })

holds_if_present {ℓ} : {A : Type ℓ} → (A → Bool) → Option A → Bool
holds_if_present p none = true
holds_if_present p (some a) = p a

-- AlertSchema.safeParse
unfoldable pub parse_alert : (String → Bool) → Alert → Option Alert
unfolding parse_actor parse_target holds_if_present
parse_alert is_ip a = do
  alert_id ← opaque_id a.alert_id
  source ← trimmed_within 64 a.source
  source_event_id ← opaque_id a.source_event_id
  tenant_id ← opaque_id a.tenant_id
  subject_id ← opaque_id a.subject_id
  session_id ← optional_id a.session_id
  device_id ← optional_id a.device_id
  refine (holds_if_present is_ip a.ip)
  actor ← parse_actor a.actor
  target ← parse_target a.target
  refine (holds_if_present bounded_json_object a.changes)
  raw_payload_ref ← trimmed_within 512 a.raw_payload_ref
  idempotency_key ← opaque_id a.idempotency_key
  some (record a {
    alert_id = alert_id;
    source = source;
    source_event_id = source_event_id;
    tenant_id = tenant_id;
    subject_id = subject_id;
    session_id = session_id;
    device_id = device_id;
    actor = actor;
    target = target;
    raw_payload_ref = raw_payload_ref;
    idempotency_key = idempotency_key;
  })
