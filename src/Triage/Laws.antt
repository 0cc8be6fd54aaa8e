-- ===== src/Triage/Laws.antt =====
-- What the policy promises: it classifies only on complete, trusted and uncontradicted evidence.
use template_security_incide.Prelude.{
  ℕ, ◌≤◌, String, Bool, true, false, some, List, [], ◌∷◌, ◌≡◌, ◌≢◌, refl, ◌⊎◌, inl, inr, any, all,
  first_row, where_rows, arith, Bool-cases, Option-cases, ap,
}
use template_security_incide.Schemas.Incident.{IncidentSeverity, low, medium, high, critical}
use template_security_incide.Triage.Evidence.{Evidence, InvestigationContext, property}
use template_security_incide.Triage.Requirements.{
  EvidenceRequirement, EvidenceOrigin, central_event, benign_explanation, aggravating_evidence,
}
use template_security_incide.Triage.Resolve.{
  RequirementResolution, valid, missing, invalid, of_type, is_origin, is_general,
  phase5_min_confidence, resolve_evidence_requirement, resolve_matches, resolve_item,
}
use template_security_incide.Triage.Severity.{
  is_aggravating, ReasonCode, conclude, classified, evaluate_severity_policy, resolutions_of,
  reasons_of, classify, is_valid, is_missing, is_invalid, present,
}

resolve_matches-valid :
    (matches : List Evidence) (r : EvidenceRequirement) (context : InvestigationContext)
    (e : Evidence)
    → resolve_matches matches r context ≡ valid e
    → (matches ≡ e ∷ [])
      × (e.incomplete ≡ false)
      × (r.value_is_valid (property "value" e.fact) context ≡ true)
      × (o : EvidenceOrigin) × (first_row (is_origin e) r.origins ≡ some o)
      × ((is_general o ≡ false) ⊎ (phase5_min_confidence ≤ e.confidence))
unfolding resolve_matches resolve_item
resolve_matches-valid [] r context e h = cc
resolve_matches-valid (m ∷ n ∷ rest) r context e h = cc
resolve_matches-valid (m ∷ []) r context e h =
    elim (Option-cases (first_row (is_origin m) r.origins)) [
      | inl unknown_ ↦ ground arith
      | inr (o, found) ↦
          let same : m ≡ e = ground arith in
          (
            ap (λ x. x ∷ []) same,
            rw (← same) (ground arith),
            rw (← same) (ground arith),
            o,
            rw (← same) found,
            rw (← same) (ground arith),
          )
    ]

-- A requirement that is valid has one item of its fact type, which is complete, has a valid value,
-- and comes from an admitted origin: one with a fixed confidence, or with at least the general one.
pub resolve-valid :
    (evidence : List Evidence) (r : EvidenceRequirement) (context : InvestigationContext)
    (e : Evidence)
    → resolve_evidence_requirement evidence r context ≡ valid e
    → (where_rows (of_type r.fact_type) evidence ≡ e ∷ [])
      × (e.incomplete ≡ false)
      × (r.value_is_valid (property "value" e.fact) context ≡ true)
      × (o : EvidenceOrigin) × (first_row (is_origin e) r.origins ≡ some o)
      × ((is_general o ≡ false) ⊎ (phase5_min_confidence ≤ e.confidence))
unfolding resolve_evidence_requirement
resolve-valid evidence r context e h = resolve_matches-valid _ r context e h

no_reasons :
    (resolutions : List RequirementResolution) (n : ℕ)
    → reasons_of resolutions n ≡ []
    → (any is_missing resolutions ≡ false) × (any is_invalid resolutions ≡ false) × (n ≡ 0)
unfolding reasons_of
no_reasons resolutions n h = ground arith

all-valid :
    (resolutions : List RequirementResolution)
    → any is_missing resolutions ≡ false
    → any is_invalid resolutions ≡ false
    → all is_valid resolutions ≡ true
unfolding any all
all-valid [] m i = refl
all-valid (valid e ∷ rest) m i = all-valid rest m i
all-valid (missing ∷ rest) m i = cc
all-valid (invalid e r ∷ rest) m i = cc

pub conclude-classified :
    (context : InvestigationContext) (evidence : List Evidence)
    (resolutions : List RequirementResolution) (reasons : List ReasonCode)
    → (conclude context evidence resolutions reasons).outcome ≡ classified
    → (reasons ≡ [])
      × ((conclude context evidence resolutions reasons).reason_codes ≡ [])
      × (severity : IncidentSeverity) × ((conclude context evidence resolutions reasons).severity
          ≡ some severity)
      × (severity ≢ critical)
unfolding conclude classify
conclude-classified context evidence resolutions (r ∷ rest) h = cc
conclude-classified context evidence resolutions [] h =
    let facts = present resolutions in
    let kind = context.incident_kind in
    let aggravating =
      is_aggravating (resolve_evidence_requirement evidence (aggravating_evidence kind) context) in
    elim (Bool-cases (benign_explanation kind facts)) [
      | inl benign ↦ (refl, ground arith, low, ground arith, λ q. cc)
      | inr suspect ↦ elim (Bool-cases (central_event kind facts)) [
        | inl central ↦ elim (Bool-cases aggravating) [
          | inl worse ↦ (refl, ground arith, high, ground arith, λ q. cc)
          | inr plain ↦ (refl, ground arith, medium, ground arith, λ q. cc)
        ]
        | inr unclear ↦ ground arith
      ]
    ]

module _ (known_region : String → Bool) where
  -- An incident is classified only if no contradiction was found and every requirement of its kind is
  -- valid; it then has a severity, below critical, and no reason for a review.
  pub classified_on_evidence :
      (context : InvestigationContext) (evidence : List Evidence) (contradictions : ℕ)
      → (evaluate_severity_policy known_region context evidence contradictions).outcome ≡ classified
      → (contradictions ≡ 0)
        × (all is_valid (resolutions_of known_region context evidence) ≡ true)
        × ((evaluate_severity_policy known_region context evidence contradictions).reason_codes
            ≡ [])
        × (severity : IncidentSeverity) × ((evaluate_severity_policy known_region context evidence
              contradictions).severity
            ≡ some severity)
        × (severity ≢ critical)
  unfolding evaluate_severity_policy
  classified_on_evidence context evidence contradictions h =
      let resolutions = resolutions_of known_region context evidence in
      let (none_, codes, severity, is, below) =
        conclude-classified context evidence resolutions _ h in
      let (m, i, z) = no_reasons resolutions contradictions none_ in
      (z, all-valid resolutions m i, codes, severity, is, below)
