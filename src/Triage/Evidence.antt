-- ===== src/Triage/Evidence.antt =====
-- The part of an evidence record (src/schemas/evidence.ts) and of the investigation context
-- (src/evidence/contracts.ts) that the policy reads. A confidence is counted in millionths.
use template_security_incide.Prelude.{
  ℕ, String, Bool, true, false, Option, none, some, [], ◌∷◌, ◌==◌, nat_eq, string_eq, if◌then◌else◌,
}
use template_security_incide.Schemas.Common.{Payload, JsonPrimitive, str, num, bool, null}
use template_security_incide.Schemas.Incident.{IncidentKind}

pub data EvidenceSource : Type 0 where
  identity endpoint cloud geoip policy : EvidenceSource

pub record Evidence : Type 0 where
  pub evidence_id : String
  pub source : EvidenceSource
  pub provider : String
  pub fact : Payload
  pub confidence : ℕ
  pub incomplete : Bool

pub record InvestigationContext : Type 0 where
  pub subject_id : String
  pub incident_kind : IncidentKind
  pub session_id : Option String
  pub device_id : Option String
  pub ip : Option String

-- A property of an object, `none` when it is undefined.
unfoldable pub property : String → Payload → Option JsonPrimitive
property key [] = none
property key ((k, v) ∷ rest) = if k == key then some v else property key rest

-- `===` on primitive values
abbrev pub json_beq : JsonPrimitive → JsonPrimitive → Bool
json_beq (str a) (str b) = a == b
json_beq (num a) (num b) = a == b
json_beq (bool true) (bool true) = true
json_beq (bool false) (bool false) = true
json_beq null null = true
json_beq _ _ = false

abbrev pub same_value : Option JsonPrimitive → Option JsonPrimitive → Bool
same_value none none = true
same_value (some a) (some b) = json_beq a b
same_value _ _ = false

abbrev pub is_value : Option JsonPrimitive → JsonPrimitive → Bool
is_value o v = same_value o (some v)

abbrev pub source_beq : EvidenceSource → EvidenceSource → Bool
source_beq identity identity = true
source_beq endpoint endpoint = true
source_beq cloud cloud = true
source_beq geoip geoip = true
source_beq policy policy = true
source_beq _ _ = false
