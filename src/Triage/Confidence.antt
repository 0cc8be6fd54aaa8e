-- ===== src/Triage/Confidence.antt =====
-- How sure a classification is.
use template_security_incide.Prelude.{
  ℕ, ◌≤◌, String, Bool, true, false, not, none, some, List, [], ◌∷◌, map, ◌≡◌, refl, inl, inr, ◌⊎◌,
  all, ◌==◌, nat_eq, first_row, arith, Bool-cases, Option-cases,
}
use template_security_incide.Schemas.Incident.{
  IncidentKind, unauthorized_privilege_change, disallowed_country_login, unknown_device_login,
}
use template_security_incide.Triage.Evidence.{Evidence, InvestigationContext}
use template_security_incide.Triage.Requirements.{
  EvidenceRequirement, EvidenceOrigin, required_evidence,
}
use template_security_incide.Triage.Resolve.{
  RequirementResolution, valid, missing, invalid, is_origin, is_general,
  resolve_evidence_requirement,
}
use template_security_incide.Triage.Severity.{
  classified, evaluate_severity_policy, resolutions_of, conclude, classify, is_valid, matched,
  least_of, least_confidence, effective_confidence_of,
}
use template_security_incide.Triage.Laws.{
  resolve-valid, classified_on_evidence, conclude-classified,
}

-- The confidence that the registry fixes for an origin, if it fixes one.
abbrev fixes_enough : EvidenceOrigin → Bool
fixes_enough o = elim o.exact_confidence [ none ↦ true | some exact ↦ exact == 700000 ]

abbrev trusted : EvidenceRequirement → Bool
trusted r = all fixes_enough r.origins

first_origin :
    (e : Evidence) (origins : List EvidenceOrigin) {o : EvidenceOrigin}
    → all fixes_enough origins ≡ true
    → first_row (is_origin e) origins ≡ some o
    → (fixes_enough o ≡ true) × (is_origin e o ≡ true)
unfolding all first_row
first_origin e [] h found = cc
first_origin e (p ∷ rest) {o} h found = elim (Bool-cases (is_origin e p)) [
  | inl here_ ↦ let same : p ≡ o = ground arith in rw (← same) (ground arith, here_)
  | inr other ↦ first_origin e rest {o = o} (ground arith) (ground arith)
]

fixed_confidence :
    (e : Evidence) (o : EvidenceOrigin)
    → is_general o ≡ false
    → fixes_enough o ≡ true
    → is_origin e o ≡ true
    → 700000 ≤ e.confidence
fixed_confidence e o special fixed from = elim (Option-cases o.exact_confidence) [
  | inl general ↦ ground arith
  | inr (exact, is) ↦ ground arith
]

resolve-confident :
    (evidence : List Evidence) (r : EvidenceRequirement) (context : InvestigationContext)
    (e : Evidence)
    → trusted r ≡ true
    → resolve_evidence_requirement evidence r context ≡ valid e
    → 700000 ≤ e.confidence
resolve-confident evidence r context e registered h =
    let (_, _, _, o, found, enough) = resolve-valid evidence r context e h in
    let (fixed, from) = first_origin e r.origins registered found in
    elim enough [
      | inl special ↦ fixed_confidence e o special fixed from
      | inr general ↦ omega (arith, general)
    ]

Resolution-cases :
    (r : RequirementResolution) → ((e : Evidence) × (r ≡ valid e)) ⊎ (is_valid r ≡ false)
Resolution-cases (valid e) = inl (e, refl)
Resolution-cases missing = inr refl
Resolution-cases (invalid e reason) = inr refl

all_valid-first_row :
    (resolutions : List RequirementResolution)
    → all is_valid resolutions ≡ true
    → first_row (λ r. not (is_valid r)) resolutions ≡ none
unfolding all first_row
all_valid-first_row [] h = refl
all_valid-first_row (r ∷ rest) h = let ih = all_valid-first_row rest in ground (arith, ih)

least_confidence-least :
    (e : Evidence) (rest : List Evidence)
    → 700000 ≤ e.confidence
    → 700000 ≤ least_of rest
    → 700000 ≤ least_confidence e rest
unfolding least_confidence least_of
least_confidence-least e [] enough least = enough
least_confidence-least e (f ∷ rest) enough least = omega (arith, enough, least)

-- The least confidence of requirements that are all valid.
least_of-confident :
    (evidence : List Evidence) (context : InvestigationContext) (r : EvidenceRequirement)
    (rest : List EvidenceRequirement)
    → all trusted (r ∷ rest) ≡ true
    → all is_valid (map (λ q. resolve_evidence_requirement evidence q context) (r ∷ rest)) ≡ true
    → 700000
      ≤ least_of (matched (map (λ q. resolve_evidence_requirement evidence q context) (r ∷ rest)))
unfolding all least_of least_confidence matched
least_of-confident evidence context r [] registered h =
    elim (Resolution-cases (resolve_evidence_requirement evidence r context)) [
      | inl (e, is) ↦
          let enough = resolve-confident evidence r context e (ground arith) is in rw is enough
      | inr other ↦ ground (arith, other)
    ]
least_of-confident evidence context r (q ∷ rest) registered h =
    elim (Resolution-cases (resolve_evidence_requirement evidence r context)) [
      | inl (e, is) ↦
          let enough = resolve-confident evidence r context e (ground arith) is in
          let ih = least_of-confident evidence context q rest (ground arith) (ground arith) in
          rw is (least_confidence-least e _ enough ih)
      | inr other ↦ ground (arith, other)
    ]

conclude-confidence :
    (context : InvestigationContext) (evidence : List Evidence)
    (resolutions : List RequirementResolution)
    → all is_valid resolutions ≡ true
    → 700000 ≤ least_of (matched resolutions)
    → (conclude context evidence resolutions []).outcome ≡ classified
    → 700000 ≤ (conclude context evidence resolutions []).effective_confidence
unfolding conclude classify effective_confidence_of
conclude-confidence context evidence resolutions sound least h =
    let none_ = all_valid-first_row resolutions sound in ground (arith, none_, least)

module _ (known_region : String → Bool) where
  registry : (kind : IncidentKind) → all trusted (required_evidence known_region kind) ≡ true
  unfolding all
  registry unauthorized_privilege_change = refl
  registry disallowed_country_login = refl
  registry unknown_device_login = refl

  least :
      (kind : IncidentKind) (context : InvestigationContext) (evidence : List Evidence)
      → all is_valid (
          map
            (λ q. resolve_evidence_requirement evidence q context)
            (required_evidence known_region kind))
        ≡ true
      → 700000
        ≤ least_of (
            matched (
              map
                (λ q. resolve_evidence_requirement evidence q context)
                (required_evidence known_region kind)))
  least unauthorized_privilege_change context evidence sound =
      least_of-confident evidence context _ _ (registry unauthorized_privilege_change) sound
  least disallowed_country_login context evidence sound =
      least_of-confident evidence context _ _ (registry disallowed_country_login) sound
  least unknown_device_login context evidence sound =
      least_of-confident evidence context _ _ (registry unknown_device_login) sound

  -- A classification has an effective confidence of at least seven tenths.
  pub classified_with_confidence :
      (context : InvestigationContext) (evidence : List Evidence) (contradictions : ℕ)
      → (evaluate_severity_policy known_region context evidence contradictions).outcome ≡ classified
      → 700000
        ≤ (evaluate_severity_policy known_region context evidence
            contradictions).effective_confidence
  unfolding evaluate_severity_policy resolutions_of
  classified_with_confidence context evidence contradictions h =
      let sound = (classified_on_evidence known_region context evidence contradictions h).1 in
      let resolutions = resolutions_of known_region context evidence in
      let no_reason = (conclude-classified context evidence resolutions _ h).0 in
      rw no_reason (
        conclude-confidence context evidence resolutions sound
          (least context.incident_kind context evidence sound) (rw (← no_reason) h))
