-- ===== src/Triage/Examples.antt =====
-- The policy on a privilege change that nobody approved.
use template_security_incide.Prelude.{
  inl, ℕ, ◌≤◌, String, Bool, true, false, none, some, List, [], ◌∷◌, ◌≡◌, ◌≢◌, refl, first_row,
  where_rows, all, any,
}
use template_security_incide.Schemas.Common.{JsonPrimitive, str, bool, trim, utf16_length}
use template_security_incide.Schemas.Incident.{
  unauthorized_privilege_change, IncidentSeverity, critical,
}
use template_security_incide.Triage.Evidence.{Evidence, InvestigationContext, identity, property}
use template_security_incide.Triage.Requirements.{
  role_previous, value, central_event, benign_explanation, role_value, boolean_value,
  non_empty_string,
}
use template_security_incide.Triage.Resolve.{
  resolve_evidence_requirement, resolve_matches, resolve_item,
}
use template_security_incide.Triage.Severity.{
  classified, is_valid, evaluate_severity_policy, resolutions_of, conclude, classify, reasons_of,
  present,
}
use template_security_incide.Triage.Confidence.{classified_with_confidence}
use template_security_incide.Triage.Laws.{classified_on_evidence}
use template_security_incide.Triage.Trust.{Trusted, every_requirement_met}

abbrev context : InvestigationContext
context = record {
  subject_id = "user-1";
  incident_kind = unauthorized_privilege_change;
  session_id = none;
  device_id = none;
  ip = none;
}

abbrev item : String → JsonPrimitive → Evidence
item fact_type v = record {
  evidence_id = fact_type;
  source = identity;
  provider = "mock-identity";
  fact = ("factType", str fact_type) ∷ ("value", v) ∷ ("confidenceProvenance", str "provider") ∷ [];
  confidence = 950000;
  incomplete = false;
}

abbrev collected : List Evidence
collected =
    item "role.previous" (str "member")
    ∷ item "role.current" (str "admin")
    ∷ item "actor.id" (str "user-2")
    ∷ item "change.approved" (bool false)
    ∷ []

abbrev no_region : String → Bool
no_region s = false

abbrev no_contradictions : ℕ
no_contradictions = 0

is_classified :
    (evaluate_severity_policy no_region context collected no_contradictions).outcome ≡ classified
unfolding evaluate_severity_policy conclude classify reasons_of resolutions_of
    resolve_evidence_requirement resolve_matches resolve_item where_rows first_row property
    role_value boolean_value non_empty_string trim utf16_length any present value central_event
    benign_explanation
is_classified = refl

classified_on_evidence_example :
    (no_contradictions ≡ 0)
    × (all is_valid (resolutions_of no_region context collected) ≡ true)
    × ((evaluate_severity_policy no_region context collected no_contradictions).reason_codes ≡ [])
    × (severity : IncidentSeverity) × ((evaluate_severity_policy no_region context collected
          0).severity
        ≡ some severity)
    × (severity ≢ critical)
classified_on_evidence_example =
    classified_on_evidence no_region context collected no_contradictions is_classified

every_requirement_met_example : (e : Evidence) × Trusted collected role_previous context e
every_requirement_met_example =
    every_requirement_met no_region context collected no_contradictions role_previous is_classified
      (inl refl)

classified_with_confidence_example :
    700000
    ≤ (evaluate_severity_policy no_region context collected no_contradictions).effective_confidence
classified_with_confidence_example =
    classified_with_confidence no_region context collected no_contradictions is_classified
