-- ===== src/Triage/Resolve.antt =====
-- resolveEvidenceRequirement of src/triage/policy.ts.
use template_security_incide.Prelude.{
  ℕ, String, Bool, true, false, not, ◌&&◌, Option, none, some, List, [], ◌∷◌, ltb, ◌==◌, nat_eq,
  string_eq, where_rows, first_row, if◌then◌else◌,
}
use template_security_incide.Schemas.Common.{str}
use template_security_incide.Triage.Evidence.{
  Evidence, InvestigationContext, property, is_value, source_beq,
}
use template_security_incide.Triage.Requirements.{
  EvidenceOrigin, EvidenceRequirement, provenance_text,
}

pub data InvalidReason : Type 0 where
  duplicate incomplete low_confidence provenance value : InvalidReason

pub data RequirementResolution : Type 0 where
  valid : Evidence → RequirementResolution
  missing : RequirementResolution
  invalid : Evidence → InvalidReason → RequirementResolution

-- PHASE5_MIN_CONFIDENCE, in millionths
abbrev pub phase5_min_confidence : ℕ
phase5_min_confidence = 800000

abbrev pub of_type : String → Evidence → Bool
of_type fact_type e = is_value (property "factType" e.fact) (str fact_type)

abbrev pub exactly : Option ℕ → ℕ → Bool
exactly none confidence = true
exactly (some exact) confidence = exact == confidence

abbrev pub is_origin : Evidence → EvidenceOrigin → Bool
is_origin e o =
    source_beq o.source e.source
    && o.provider == e.provider
    && is_value (property "confidenceProvenance" e.fact)
        (str (provenance_text o.confidence_provenance))
    && exactly o.exact_confidence e.confidence

abbrev pub is_general : EvidenceOrigin → Bool
is_general o = elim o.exact_confidence [ none ↦ true | some _ ↦ false ]

-- The only item of its fact type.
unfoldable pub resolve_item :
    Evidence → EvidenceRequirement → InvestigationContext → RequirementResolution
resolve_item e r context =
    if e.incomplete then invalid e incomplete else elim (first_row (is_origin e) r.origins) [
      | none ↦ invalid e provenance
      | some o ↦
          if is_general o && ltb e.confidence phase5_min_confidence
          then invalid e low_confidence
          else if not (r.value_is_valid (property "value" e.fact) context)
          then invalid e value
          else valid e
    ]

unfoldable pub resolve_matches :
    List Evidence → EvidenceRequirement → InvestigationContext → RequirementResolution
resolve_matches [] r context = missing
resolve_matches (e ∷ []) r context = resolve_item e r context
resolve_matches (e ∷ _ ∷ _) r context = invalid e duplicate

unfoldable pub resolve_evidence_requirement :
    List Evidence → EvidenceRequirement → InvestigationContext → RequirementResolution
resolve_evidence_requirement evidence r context =
    resolve_matches (where_rows (of_type r.fact_type) evidence) r context
