-- ===== src/Approvals/Decision.antt =====
-- The schema of a decision (src/schemas/approval.ts), and what decideApproval takes.
use template_security_incide.Prelude.{
  ℕ, String, Bool, true, false, ◌&&◌, Option, none, some, ltb, ◌==◌, string_eq, Eq, ◌≡◌, ◌↔◌, arith,
}
use template_security_incide.Schemas.Common.{opaque_id, long_text, is_sha256}
use template_security_incide.Schemas.Parsing
use template_security_incide.Schemas.Parsing.{refine}
use template_security_incide.Store.Rows.{Decision, approved, rejected, Provenance, mock, dashboard}

pub record ApprovalDecision : Type 0 where
  pub approval_id : String
  pub plan_id : String
  pub incident_id : String
  pub tenant_id : String
  pub plan_hash_version : ℕ
  pub plan_hash : String
  pub decision : Decision
  pub decided_by : String
  pub decided_by_role : String
  pub decided_at : ℕ
  pub reason : Option String

pub record DecisionInput : Type 0 where
  pub decision : ApprovalDecision
  pub expected_incident_version : ℕ
  pub run_id : String
  pub correlation_id : String
  pub decision_provenance : Option Provenance

pub record ResumeToken : Type 0 where
  pub token_id : String
  pub token : String
  pub workflow_run_id : String
  pub decision_fingerprint : String

pub record DecisionDependencies : Type 0 where
  pub now : ℕ
  pub timeline_id : String
  pub event_id : String
  pub resume_token : Option ResumeToken

abbrev pub decision_beq : Decision → Decision → Bool
decision_beq approved approved = true
decision_beq rejected rejected = true
decision_beq _ _ = false

pub decision_beq_iff : (a b : Decision) → (decision_beq a b ≡ true) ↔ (a ≡ b)
decision_beq_iff a b = ground arith

instance abbrev pub decision_eq : Eq Decision
decision_eq = record { equals = decision_beq; decides = decision_beq_iff }

abbrev pub provenance_beq : Provenance → Provenance → Bool
provenance_beq mock mock = true
provenance_beq dashboard dashboard = true
provenance_beq _ _ = false

pub provenance_beq_iff : (a b : Provenance) → (provenance_beq a b ≡ true) ↔ (a ≡ b)
provenance_beq_iff a b = ground arith

instance abbrev pub provenance_eq : Eq Provenance
provenance_eq = record { equals = provenance_beq; decides = provenance_beq_iff }

-- A rejection has a reason; an approval may have one.
parse_reason : Decision → Option String → Option (Option String)
parse_reason approved none = some none
parse_reason rejected none = none
parse_reason d (some reason) = elim (long_text reason) [ none ↦ none | some t ↦ some (some t) ]

-- ApprovalDecisionSchema.safeParse
unfoldable pub parse_decision : ApprovalDecision → Option ApprovalDecision
unfolding parse_reason
parse_decision d = Parsing.◌>>=◌ (opaque_id d.approval_id) λ approval_id.
    Parsing.◌>>=◌ (opaque_id d.plan_id) λ plan_id.
      Parsing.◌>>=◌ (opaque_id d.incident_id) λ incident_id.
        Parsing.◌>>=◌ (opaque_id d.tenant_id) λ tenant_id.
          Parsing.◌>>◌ (refine (ltb 0 d.plan_hash_version && is_sha256 d.plan_hash)) (
            Parsing.◌>>=◌ (opaque_id d.decided_by) λ decided_by.
              Parsing.◌>>◌ (refine (d.decided_by_role == "soc_manager")) (
                Parsing.◌>>=◌ (parse_reason d.decision d.reason) λ reason. some (record d {
                  approval_id = approval_id;
                  plan_id = plan_id;
                  incident_id = incident_id;
                  tenant_id = tenant_id;
                  decided_by = decided_by;
                  reason = reason;
                })))
