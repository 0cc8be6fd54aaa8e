-- ===== src/Triage/Trust.antt =====
-- The evidence behind a classification, in terms of the registry and of the evidence that was collected.
use template_security_incide.Prelude.{
  ℕ, ◌≤◌, String, ◌≡◌, refl, sym, ap, ◌∙◌, subst, ◌⊎◌, inl, inr, Bool, true, false, Option, none,
  some, List, [], ◌∷◌, all, map, where_rows, if◌then◌else◌, ◌==◌, string_eq, nat_eq, str_eq_iff,
  nat_beq_iff, Bool-cases, Option-cases, ◌∈◌, first_row-member, arith,
}
use template_security_incide.Schemas.Common.{JsonPrimitive, str, num, bool, null}
use template_security_incide.Triage.Evidence.{
  Evidence, EvidenceSource, InvestigationContext, property, is_value, source_beq,
}
use template_security_incide.Triage.Requirements.{
  EvidenceRequirement, EvidenceOrigin, provenance_text, required_evidence,
}
use template_security_incide.Triage.Resolve.{
  RequirementResolution, valid, missing, invalid, of_type, is_origin, is_general, exactly,
  resolve_evidence_requirement,
}
use template_security_incide.Triage.Severity.{
  classified, evaluate_severity_policy, resolutions_of, is_valid,
}
use template_security_incide.Triage.Laws.{resolve-valid, classified_on_evidence}

-- An item that satisfies a requirement: the only one of its fact type, complete, with a valid value,
-- from an origin that the registry admits, and with the confidence that the registry fixes for this
-- origin, or else with at least eight tenths.
pub record Trusted (evidence : List Evidence) (r : EvidenceRequirement)
    (context : InvestigationContext) (e : Evidence) : Type 0 where
  pub there : e ∈ evidence
  pub has_type : property "factType" e.fact ≡ some (str r.fact_type)
  pub alone :
      (f : Evidence) → f ∈ evidence → property "factType" f.fact ≡ some (str r.fact_type) → f ≡ e
  pub complete : e.incomplete ≡ false
  pub accepted : r.value_is_valid (property "value" e.fact) context ≡ true
  pub origin : EvidenceOrigin
  pub admitted : origin ∈ r.origins
  pub from_source : origin.source ≡ e.source
  pub from_provider : origin.provider ≡ e.provider
  pub provenance :
      property "confidenceProvenance" e.fact
      ≡ some (str (provenance_text origin.confidence_provenance))
  pub enough :
      (origin.exact_confidence ≡ some e.confidence)
      ⊎ (origin.exact_confidence ≡ none) × (800000 ≤ e.confidence)

text_value : (o : Option JsonPrimitive) (s : String) → is_value o (str s) ≡ true → o ≡ some (str s)
text_value none s h = cc
text_value (some (str t)) s h = ap (λ x. some (str x)) ((str_eq_iff t s).0 h)
text_value (some (num n)) s h = cc
text_value (some (bool true)) s h = cc
text_value (some (bool false)) s h = cc
text_value (some null) s h = cc

value_text : (o : Option JsonPrimitive) (s : String) → o ≡ some (str s) → is_value o (str s) ≡ true
value_text o s h = rw h ((str_eq_iff s s).1 refl)

same_source : (a b : EvidenceSource) → source_beq a b ≡ true → a ≡ b
same_source a b h = ground arith

where_rows-member :
    (p : Evidence → Bool) (rows : List Evidence) (e : Evidence)
    → e ∈ where_rows p rows
    → (e ∈ rows) × (p e ≡ true)
unfolding where_rows
where_rows-member p [] e m = elim m [ ]
where_rows-member p (x ∷ rest) e m = elim (Bool-cases (p x)) [
  | inl met ↦
      let m : e ∈ x ∷ where_rows p rest =
        subst (λ (b : Bool). e ∈ (if b then x ∷ where_rows p rest else where_rows p rest)) met m in
      elim m [
        | inl here ↦ (inl here, subst (λ (z : Evidence). p z ≡ true) (sym here) met)
        | inr later ↦ let (there, ok) = where_rows-member p rest e later in (inr there, ok)
      ]
  | inr missed ↦
      let m : e ∈ where_rows p rest =
        subst (λ (b : Bool). e ∈ (if b then x ∷ where_rows p rest else where_rows p rest)) missed
          m in
      let (there, ok) = where_rows-member p rest e m in (inr there, ok)
]

member-where_rows :
    (p : Evidence → Bool) (rows : List Evidence) (e : Evidence)
    → e ∈ rows
    → p e ≡ true
    → e ∈ where_rows p rows
unfolding where_rows
member-where_rows p [] e m met = elim m [ ]
member-where_rows p (x ∷ rest) e (inl here) met =
    let met_x : p x ≡ true = subst (λ (z : Evidence). p z ≡ true) here met in
    subst (λ (b : Bool). e ∈ (if b then x ∷ where_rows p rest else where_rows p rest)) (sym met_x)
      (inl here)
member-where_rows p (x ∷ rest) e (inr later) met =
    let ih = member-where_rows p rest e later met in
    elim (Bool-cases (p x)) [
      | inl met_x ↦
          subst (λ (b : Bool). e ∈ (if b then x ∷ where_rows p rest else where_rows p rest))
            (sym met_x) (inr ih)
      | inr missed ↦
          subst (λ (b : Bool). e ∈ (if b then x ∷ where_rows p rest else where_rows p rest))
            (sym missed) ih
    ]

fixed-confidence :
    (o : EvidenceOrigin) (e : Evidence)
    → exactly o.exact_confidence e.confidence ≡ true
    → (is_general o ≡ false) ⊎ (800000 ≤ e.confidence)
    → (o.exact_confidence ≡ some e.confidence)
      ⊎ (o.exact_confidence ≡ none) × (800000 ≤ e.confidence)
fixed-confidence o e fits known = elim (Option-cases o.exact_confidence) [
  | inr (n, is_n) ↦
      let same : (n == e.confidence) ≡ true = ground (arith, fits, is_n) in
      inl (is_n ∙ ap some ((nat_beq_iff n e.confidence).0 same))
  | inl general ↦ elim known [
    | inl fixed ↦ ground (arith, fixed, general)
    | inr enough ↦ inr (general, enough)
  ]
]

resolve-Trusted :
    (evidence : List Evidence) (r : EvidenceRequirement) (context : InvestigationContext)
    (e : Evidence)
    → resolve_evidence_requirement evidence r context ≡ valid e
    → Trusted evidence r context e
resolve-Trusted evidence r context e h =
    let (only, complete, accepted, o, found, known) = resolve-valid evidence r context e h in
    let (admitted, fits) = first_row-member (is_origin e) r.origins o found in
    let listed : e ∈ where_rows (of_type r.fact_type) evidence =
      subst (λ (rows : List Evidence). e ∈ rows) (sym only) (inl refl) in
    let (there, typed) = where_rows-member (of_type r.fact_type) evidence e listed in
    record {
      there = there;
      has_type = text_value (property "factType" e.fact) r.fact_type typed;
      alone = λ f in_f typed_f.
          let m =
            member-where_rows (of_type r.fact_type) evidence f in_f
              (value_text (property "factType" f.fact) r.fact_type typed_f) in
          elim (subst (λ (rows : List Evidence). f ∈ rows) only m) [
            | inl same ↦ same
            | inr none_ ↦ elim none_ [ ]
          ];
      complete = complete;
      accepted = accepted;
      origin = o;
      admitted = admitted;
      from_source = same_source o.source e.source (ground (arith, fits));
      from_provider = (str_eq_iff o.provider e.provider).0 (ground (arith, fits));
      provenance =
          text_value (property "confidenceProvenance" e.fact)
            (provenance_text o.confidence_provenance) (ground (arith, fits));
      enough = fixed-confidence o e (ground (arith, fits)) known;
    }

valid-item : (r : RequirementResolution) → is_valid r ≡ true → (e : Evidence) × (r ≡ valid e)
valid-item (valid e) h = (e, refl)
valid-item missing h = cc
valid-item (invalid e reason) h = cc

all-member :
    (f : EvidenceRequirement → RequirementResolution) (rows : List EvidenceRequirement)
    (r : EvidenceRequirement)
    → all is_valid (map f rows) ≡ true
    → r ∈ rows
    → is_valid (f r) ≡ true
unfolding all
all-member f [] r h m = elim m [ ]
all-member f (x ∷ rest) r h (inl here) =
    subst (λ (z : EvidenceRequirement). is_valid (f z) ≡ true) (sym here) (ground (arith, h))
all-member f (x ∷ rest) r h (inr later) = all-member f rest r (ground (arith, h)) later

-- An incident is classified only on evidence that satisfies every requirement that the registry has
-- for its kind.
pub every_requirement_met :
    (known_region : String → Bool) (context : InvestigationContext) (evidence : List Evidence)
    (contradictions : ℕ) (r : EvidenceRequirement)
    → (evaluate_severity_policy known_region context evidence contradictions).outcome ≡ classified
    → r ∈ required_evidence known_region context.incident_kind
    → (e : Evidence) × Trusted evidence r context e
unfolding resolutions_of
every_requirement_met known_region context evidence contradictions r h required =
    let (z, every, codes, severity, is, below) =
      classified_on_evidence known_region context evidence contradictions h in
    let (e, is_e) =
      valid-item (resolve_evidence_requirement evidence r context)
        (all-member (λ x. resolve_evidence_requirement evidence x context) _ r every required) in
    (e, resolve-Trusted evidence r context e is_e)
