-- ===== src/Schemas/Incident.antt =====
-- src/schemas/incident.ts: the incident's kinds, severities and statuses.
use template_security_incide.Prelude.{◌≡◌, ◌↔◌, true, ℕ, nat_beq, Eq, arith}

pub data IncidentKind : Type 0 where
  unauthorized_privilege_change disallowed_country_login unknown_device_login : IncidentKind

pub data IncidentSeverity : Type 0 where
  low medium high critical : IncidentSeverity

pub data IncidentStatus : Type 0 where
  received investigating awaiting_approval approved rejected : IncidentStatus
  containing contained failed closed : IncidentStatus

abbrev pub status_code : IncidentStatus → ℕ
status_code received = 0
status_code investigating = 1
status_code awaiting_approval = 2
status_code approved = 3
status_code rejected = 4
status_code containing = 5
status_code contained = 6
status_code failed = 7
status_code closed = 8

pub status_eq_iff :
    (a b : IncidentStatus) → (nat_beq (status_code a) (status_code b) ≡ true) ↔ (a ≡ b)
status_eq_iff a b = ground arith

instance abbrev pub status_eq : Eq IncidentStatus
status_eq = record {
  equals = λ a b. nat_beq (status_code a) (status_code b);
  decides = status_eq_iff;
}
