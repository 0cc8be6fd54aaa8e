-- ===== src/Incidents/Equivalence.antt =====
-- src/db/incident-operations.ts: which alerts are the same command (alertsAreEquivalent), which object
-- an alert is ordered by (alertOrderingObject), and what an enrichment may not change
-- (assertAlertIdentityUnchanged). An object in canonical JSON, with its keys sorted, is compared as the
-- set of its entries, whose keys are distinct.
use template_security_incide.Prelude.{
  ℕ, String, Bool, true, false, not, ◌&&◌, Option, none, some, List, [], ◌∷◌, any, all, length,
  where_rows, ◌==◌, nat_eq, nat_beq, string_eq, option_eq, if◌then◌else◌, first_row,
}
use template_security_incide.Schemas.Common.{Payload, JsonPrimitive, str, num, bool, null}
use template_security_incide.Schemas.Incident.{
  IncidentKind, unauthorized_privilege_change, disallowed_country_login, unknown_device_login,
}
use template_security_incide.Schemas.Alert.{Alert, parse_alert}

abbrev kind_code : IncidentKind → ℕ
kind_code unauthorized_privilege_change = 0
kind_code disallowed_country_login = 1
kind_code unknown_device_login = 2

abbrev pub same_kind : IncidentKind → IncidentKind → Bool
same_kind a b = nat_beq (kind_code a) (kind_code b)

abbrev same_bool : Bool → Bool → Bool
same_bool true b = b
same_bool false b = not b

abbrev pub same_json : JsonPrimitive → JsonPrimitive → Bool
same_json (str a) (str b) = a == b
same_json (num a) (num b) = a == b
same_json (bool a) (bool b) = same_bool a b
same_json null null = true
same_json _ _ = false

unfoldable pub same_entries : Payload → Payload → Bool
unfolding all any
same_entries a b = length a == length b && all (λ e. any (λ f. f.0 == e.0 && same_json f.1 e.1) b) a

abbrev same_changes : Option Payload → Option Payload → Bool
same_changes none none = true
same_changes (some a) (some b) = same_entries a b
same_changes _ _ = false

-- The facts that the write transaction of a WorkOS event may have added.
derived : List String
derived = "contextVersion" ∷ "previousRole" ∷ "nextRole" ∷ []

unfoldable pub without_derived : Option Payload → Option Payload
unfolding derived where_rows any
without_derived none = none
without_derived (some changes) =
    some (where_rows (λ e. not (any (λ key. key == e.0) derived)) changes)

unfoldable pub command_changes : (both_workos : Bool) → Option Payload → Option Payload
unfolding without_derived
command_changes both_workos changes = if both_workos then without_derived changes else changes

-- `alertId` and `rawPayloadRef` are left out of both.
unfoldable pub same_command : Alert → Alert → Bool
unfolding command_changes same_entries
same_command persisted alert =
    let both_workos = persisted.source == "workos" && alert.source == "workos" in
    persisted.source == alert.source
    && persisted.source_event_id == alert.source_event_id
    && same_kind persisted.kind alert.kind
    && persisted.occurred_at == alert.occurred_at
    && persisted.tenant_id == alert.tenant_id
    && persisted.subject_id == alert.subject_id
    && persisted.session_id == alert.session_id
    && persisted.device_id == alert.device_id
    && persisted.ip == alert.ip
    && persisted.actor.id == alert.actor.id
    && persisted.actor.type == alert.actor.type
    && persisted.actor.display_name == alert.actor.display_name
    && persisted.target.id == alert.target.id
    && persisted.target.type == alert.target.type
    && same_changes (command_changes both_workos persisted.changes)
        (command_changes both_workos alert.changes)
    && persisted.idempotency_key == alert.idempotency_key

-- `none` is the error VALIDATION_FAILED, of a persisted text that is no alert.
unfoldable pub alerts_are_equivalent : (String → Bool) → Alert → Alert → Option Bool
alerts_are_equivalent is_ip persisted alert = elim (parse_alert is_ip persisted) [
  | none ↦ none
  | some p ↦ some (same_command p alert)
]

unfoldable pub identity_unchanged : Alert → Alert → Bool
identity_unchanged original candidate =
    candidate.alert_id == original.alert_id
    && candidate.source == original.source
    && candidate.source_event_id == original.source_event_id
    && same_kind candidate.kind original.kind
    && candidate.occurred_at == original.occurred_at
    && candidate.tenant_id == original.tenant_id
    && candidate.subject_id == original.subject_id
    && candidate.raw_payload_ref == original.raw_payload_ref
    && candidate.idempotency_key == original.idempotency_key

-- `changes?.membershipId`
unfoldable pub membership_of : Option Payload → Option JsonPrimitive
unfolding first_row
membership_of none = none
membership_of (some changes) = elim (first_row (λ e. e.0 == "membershipId") changes) [
  | none ↦ none
  | some e ↦ some e.1
]

pub record OrderingObject : Type 0 where
  pub type : String
  pub id : JsonPrimitive

unfoldable pub alert_ordering_object : Alert → OrderingObject
unfolding membership_of
alert_ordering_object a = elim a.session_id [
  | some session ↦ record { type = "session"; id = str session }
  | none ↦ elim (membership_of a.changes) [
    | some (str id) ↦ record { type = "membership"; id = str id }
    | _ ↦ record { type = a.target.type; id = str a.target.id }
  ]
]

-- The same of a stored alert, by json_extract: any membershipId but null counts.
unfoldable pub stored_ordering_object : Alert → OrderingObject
unfolding membership_of
stored_ordering_object a = elim a.session_id [
  | some session ↦ record { type = "session"; id = str session }
  | none ↦ elim (membership_of a.changes) [
    | none ↦ record { type = a.target.type; id = str a.target.id }
    | some null ↦ record { type = a.target.type; id = str a.target.id }
    | some value ↦ record { type = "membership"; id = value }
  ]
]
