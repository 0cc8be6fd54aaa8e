-- ===== src/Triage/Requirements.antt =====
-- src/triage/policy-registry.ts: the evidence that a classification requires, and the rules of each
-- kind of incident. What Intl.DisplayNames knows of a region is the parameter `known_region`.
use Prim.Native.Char.{code}
use template_security_incide.Prelude.{
  ℕ, String, Bool, true, false, not, ◌&&◌, ◌||◌, Option, none, some, List, [], ◌∷◌, ◌++◌, map, leb,
  ◌==◌, nat_eq, string_eq, first_row,
}
use template_security_incide.Schemas.Common.{JsonPrimitive, str, bool, trim, utf16_length}
use template_security_incide.Schemas.Incident.{
  IncidentKind, unauthorized_privilege_change, disallowed_country_login, unknown_device_login,
}
use template_security_incide.Triage.Evidence.{
  EvidenceSource, identity, endpoint, cloud, Evidence, InvestigationContext, property, same_value,
  is_value,
}

pub data ConfidenceProvenance : Type 0 where
  provider rule_v1 policy_v1 : ConfidenceProvenance

abbrev pub provenance_text : ConfidenceProvenance → String
provenance_text provider = "provider"
provenance_text rule_v1 = "rule-v1"
provenance_text policy_v1 = "policy-v1"

pub record EvidenceOrigin : Type 0 where
  pub source : EvidenceSource
  pub provider : String
  pub confidence_provenance : ConfidenceProvenance
  pub exact_confidence : Option ℕ

-- A value may be undefined.
pub record EvidenceRequirement : Type 0 where
  pub fact_type : String
  pub origins : List EvidenceOrigin
  pub value_is_valid : Option JsonPrimitive → InvestigationContext → Bool

abbrev pub origin : EvidenceSource → String → ConfidenceProvenance → EvidenceOrigin
origin source by_ provenance = record {
  source = source;
  provider = by_;
  confidence_provenance = provenance;
  exact_confidence = none;
}

-- providers.flatMap((provider) => provenances.map(…)) for the one source that each caller passes
abbrev pub origins_of :
    EvidenceSource → List String → List ConfidenceProvenance → List EvidenceOrigin
origins_of source [] provenances = []
origins_of source (by_ ∷ rest) provenances =
    map (origin source by_) provenances ++ origins_of source rest provenances

abbrev pub requirement :
    String
    → EvidenceSource
    → List String
    → List ConfidenceProvenance
    → (Option JsonPrimitive → InvestigationContext → Bool)
    → EvidenceRequirement
requirement fact_type source providers provenances value_is_valid = record {
  fact_type = fact_type;
  origins = origins_of source providers provenances;
  value_is_valid = value_is_valid;
}

abbrev identity_providers : List String
identity_providers = "mock-identity" ∷ "workos-identity" ∷ []

abbrev endpoint_providers : List String
endpoint_providers = "mock-endpoint" ∷ []

abbrev cloud_providers : List String
cloud_providers = "mock-cloud" ∷ []

unfoldable pub non_empty_string : Option JsonPrimitive → Bool
non_empty_string (some (str s)) = leb 1 (utf16_length (trim s))
non_empty_string _ = false

unfoldable pub boolean_value : Option JsonPrimitive → Bool
boolean_value (some (bool b)) = true
boolean_value _ = false

unfoldable pub role_value : Option JsonPrimitive → Bool
role_value (some (str s)) = s == "admin" || s == "member" || s == "viewer"
role_value _ = false

-- /^[A-Z]{2}$/
unfoldable pub two_capitals : String → Bool
two_capitals (String.◌∷◌ a (String.◌∷◌ b String.[])) =
    leb b'A' (code a) && leb (code a) b'Z' && leb b'A' (code b) && leb (code b) b'Z'
two_capitals _ = false

abbrev defined : Option String → Bool
defined none = false
defined (some _) = true

abbrev pub role_previous : EvidenceRequirement
role_previous =
    requirement "role.previous" identity identity_providers (provider ∷ []) (λ v c. role_value v)

abbrev pub role_current : EvidenceRequirement
role_current =
    requirement "role.current" identity identity_providers (provider ∷ []) (λ v c. role_value v)

abbrev pub actor_id : EvidenceRequirement
actor_id =
    requirement "actor.id" identity identity_providers (provider ∷ []) (λ v c. non_empty_string v)

abbrev pub change_approved : EvidenceRequirement
change_approved =
    requirement "change.approved" identity identity_providers (provider ∷ rule_v1 ∷ [])
      (λ v c. boolean_value v)

abbrev pub session_active : EvidenceRequirement
session_active =
    requirement "session.active" identity identity_providers (rule_v1 ∷ [])
      (λ v c. defined c.session_id && boolean_value v)

abbrev pub ip_present : EvidenceRequirement
ip_present = record {
  fact_type = "login.ipPresent";
  origins = origin cloud "mock-cloud" rule_v1 ∷ origin identity "identity-geoip" rule_v1 ∷ [];
  value_is_valid = λ v c. is_value v (bool true) && defined c.ip;
}

abbrev pub allowed_country : EvidenceRequirement
allowed_country =
    requirement "policy.allowedCountry" cloud cloud_providers (rule_v1 ∷ [])
      (λ v c. is_value v (str "US"))

abbrev pub session_subject : EvidenceRequirement
session_subject =
    requirement "session.subject" identity identity_providers (provider ∷ [])
      (λ v c. defined c.session_id && is_value v (str c.subject_id))

abbrev pub abnormal_history : EvidenceRequirement
abnormal_history =
    requirement "session.abnormalHistory" cloud cloud_providers (rule_v1 ∷ [])
      (λ v c. defined c.session_id && boolean_value v)

abbrev pub device_identifier : EvidenceRequirement
device_identifier =
    requirement "device.identifierPresent" endpoint endpoint_providers (rule_v1 ∷ [])
      (λ v c. is_value v (bool true) && defined c.device_id)

abbrev pub device_signature : EvidenceRequirement
device_signature =
    requirement "device.signatureValid" endpoint endpoint_providers (rule_v1 ∷ [])
      (λ v c. defined c.device_id && is_value v (bool true))

abbrev pub device_authorized : EvidenceRequirement
device_authorized =
    requirement "device.authorized" endpoint endpoint_providers (rule_v1 ∷ [])
      (λ v c. defined c.device_id && boolean_value v)

-- value(facts, factType), for the evidence that the map of facts is made from
unfoldable pub value : List Evidence → String → Option JsonPrimitive
value facts fact_type =
    elim (first_row (λ e. is_value (property "factType" e.fact) (str fact_type)) facts) [
      | none ↦ none
      | some e ↦ property "value" e.fact
    ]

unfoldable pub central_event : IncidentKind → List Evidence → Bool
central_event unauthorized_privilege_change facts =
    not (same_value (value facts "role.previous") (value facts "role.current"))
    && is_value (value facts "role.current") (str "admin")
    && is_value (value facts "change.approved") (bool false)
central_event disallowed_country_login facts =
    not (is_value (value facts "login.country") (str "US"))
central_event unknown_device_login facts =
    is_value (value facts "device.signatureValid") (bool true)
    && is_value (value facts "device.authorized") (bool false)

unfoldable pub benign_explanation : IncidentKind → List Evidence → Bool
benign_explanation unauthorized_privilege_change facts =
    same_value (value facts "role.previous") (value facts "role.current")
benign_explanation disallowed_country_login facts =
    is_value (value facts "login.country") (str "US")
benign_explanation unknown_device_login facts =
    is_value (value facts "device.signatureValid") (bool true)
    && is_value (value facts "device.authorized") (bool true)

abbrev pub aggravating_evidence : IncidentKind → EvidenceRequirement
aggravating_evidence unauthorized_privilege_change = session_active
aggravating_evidence disallowed_country_login = abnormal_history
aggravating_evidence unknown_device_login = abnormal_history

module _ (known_region : String → Bool) where
  unfoldable pub known_country : Option JsonPrimitive → Bool
  known_country (some (str s)) = two_capitals s && known_region s
  known_country _ = false

  abbrev pub login_country : EvidenceRequirement
  login_country = record {
    fact_type = "login.country";
    origins =
        origin cloud "mock-cloud" provider
        ∷ record {
          source = identity;
          provider = "identity-geoip";
          confidence_provenance = policy_v1;
          exact_confidence = some 700000;
        }
        ∷ [];
    value_is_valid = λ v c. defined c.ip && known_country v;
  }

  abbrev pub required_evidence : IncidentKind → List EvidenceRequirement
  required_evidence unauthorized_privilege_change =
      role_previous ∷ role_current ∷ actor_id ∷ change_approved ∷ []
  required_evidence disallowed_country_login =
      ip_present ∷ login_country ∷ allowed_country ∷ session_subject ∷ abnormal_history ∷ []
  required_evidence unknown_device_login =
      device_identifier ∷ device_signature ∷ device_authorized ∷ session_subject ∷ abnormal_history
      ∷ []

  abbrev pub claim_requirements : IncidentKind → List EvidenceRequirement
  claim_requirements unauthorized_privilege_change =
      role_previous ∷ role_current ∷ actor_id ∷ change_approved ∷ session_subject ∷ session_active
      ∷ []
  claim_requirements disallowed_country_login = required_evidence disallowed_country_login
  claim_requirements unknown_device_login = required_evidence unknown_device_login
