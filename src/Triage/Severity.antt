-- ===== src/Triage/Severity.antt =====
-- evaluateSeverityPolicy of src/triage/policy.ts.
use template_security_incide.Prelude.{
  ℕ, String, Bool, true, false, not, ◌&&◌, Option, none, some, List, [], ◌∷◌, ◌++◌, map, any, ltb,
  min, first_row, if◌then◌else◌,
}
use template_security_incide.Schemas.Common.{bool}
use template_security_incide.Schemas.Incident.{IncidentSeverity, low, medium, high}
use template_security_incide.Triage.Evidence.{Evidence, InvestigationContext, property, is_value}
use template_security_incide.Triage.Requirements.{
  required_evidence, central_event, benign_explanation, aggravating_evidence,
}
use template_security_incide.Triage.Resolve.{
  RequirementResolution, valid, missing, invalid, low_confidence, resolve_evidence_requirement,
}

pub data Outcome : Type 0 where
  classified manual_review : Outcome

pub data ReasonCode : Type 0 where
  required_evidence_missing required_evidence_incomplete : ReasonCode
  confidence_below_threshold material_contradiction : ReasonCode

pub data RationaleCode : Type 0 where
  central_event_found benign_explanation_found insufficient_context : RationaleCode

pub record PolicyEvaluation : Type 0 where
  pub outcome : Outcome
  pub severity : Option IncidentSeverity
  pub effective_confidence : ℕ
  pub required : List Evidence
  pub reason_codes : List ReasonCode
  pub rationale_code : RationaleCode

abbrev pub is_missing : RequirementResolution → Bool
is_missing missing = true
is_missing _ = false

abbrev pub is_invalid : RequirementResolution → Bool
is_invalid (invalid _ _) = true
is_invalid _ = false

abbrev pub is_low_confidence : RequirementResolution → Bool
is_low_confidence (invalid _ low_confidence) = true
is_low_confidence _ = false

abbrev pub is_valid : RequirementResolution → Bool
is_valid (valid _) = true
is_valid _ = false

unfoldable pub present : List RequirementResolution → List Evidence
present [] = []
present (valid e ∷ rest) = e ∷ present rest
present (_ ∷ rest) = present rest

unfoldable pub matched : List RequirementResolution → List Evidence
matched [] = []
matched (valid e ∷ rest) = e ∷ matched rest
matched (invalid e _ ∷ rest) = e ∷ matched rest
matched (missing ∷ rest) = matched rest

-- Math.min(...items.map((item) => item.confidence))
unfoldable pub least_confidence : Evidence → List Evidence → ℕ
least_confidence e [] = e.confidence
least_confidence e (f ∷ rest) = min e.confidence (least_confidence f rest)

unfoldable pub least_of : List Evidence → ℕ
least_of [] = 0
least_of (e ∷ rest) = least_confidence e rest

unfoldable pub effective_confidence_of : List RequirementResolution → ℕ
effective_confidence_of resolutions = elim (first_row (λ r. not (is_valid r)) resolutions) [
  | none ↦ least_of (matched resolutions)
  | some r ↦ if is_low_confidence r then least_of (matched resolutions) else 0
]

abbrev pub reason_if : Bool → ReasonCode → List ReasonCode
reason_if true code = code ∷ []
reason_if false code = []

unfoldable pub reasons_of : List RequirementResolution → (contradiction_count : ℕ) → List ReasonCode
reasons_of resolutions contradiction_count =
    reason_if (any is_missing resolutions) required_evidence_missing
    ++ reason_if (any is_invalid resolutions) required_evidence_incomplete
    ++ reason_if (any is_low_confidence resolutions) confidence_below_threshold
    ++ reason_if (ltb 0 contradiction_count) material_contradiction

abbrev pub for_review : ℕ → List Evidence → List ReasonCode → PolicyEvaluation
for_review confidence evidence reasons = record {
  outcome = manual_review;
  severity = none;
  effective_confidence = confidence;
  required = evidence;
  reason_codes = reasons;
  rationale_code = insufficient_context;
}

abbrev pub is_aggravating : RequirementResolution → Bool
is_aggravating (valid e) = is_value (property "value" e.fact) (bool true)
is_aggravating _ = false

-- The classification, once no reason stands against it.
unfoldable pub classify :
    InvestigationContext → List Evidence → (confidence : ℕ) → List Evidence → PolicyEvaluation
classify context evidence confidence facts =
    let benign = benign_explanation context.incident_kind facts in
    let central = central_event context.incident_kind facts in
    if not benign && not central
    then for_review confidence facts (required_evidence_incomplete ∷ [])
    else (let aggravating = is_aggravating (
          resolve_evidence_requirement evidence (aggravating_evidence context.incident_kind)
            context) in
        record {
          outcome = classified;
          severity = some (if benign then low else if aggravating then high else medium);
          effective_confidence = confidence;
          required = facts;
          reason_codes = [];
          rationale_code = if benign then benign_explanation_found else central_event_found;
        })

unfoldable pub conclude :
    InvestigationContext
    → List Evidence
    → List RequirementResolution
    → (reasons : List ReasonCode) → PolicyEvaluation
conclude context evidence resolutions [] =
    classify context evidence (effective_confidence_of resolutions) (present resolutions)
conclude context evidence resolutions (r ∷ rest) =
    for_review (effective_confidence_of resolutions) (present resolutions) (r ∷ rest)

module _ (known_region : String → Bool) where
  unfoldable pub resolutions_of : InvestigationContext → List Evidence → List RequirementResolution
  resolutions_of context evidence =
      map (λ r. resolve_evidence_requirement evidence r context)
        (required_evidence known_region context.incident_kind)

  unfoldable pub evaluate_severity_policy :
      InvestigationContext → List Evidence → (contradiction_count : ℕ) → PolicyEvaluation
  evaluate_severity_policy context evidence contradiction_count =
      let resolutions = resolutions_of context evidence in
      conclude context evidence resolutions (reasons_of resolutions contradiction_count)
