-- ===== src/Approvals/Receipt.antt =====
-- readConsumedResumeReceipt of src/db/approval-resume-operations.ts: what a workflow that resumes reads
-- of the receipt it was given, which is of a decision or of an expiry.
use Prim.Native.String.{◌++◌ as join}
use template_security_incide.Prelude.{
  ℕ, String, Bool, not, ◌&&◌, Option, none, some, first_row, ◌==◌, nat_eq, string_eq, if◌then◌else◌,
}
use template_security_incide.Schemas.Common.{opaque_id, is_sha256}
use template_security_incide.Schemas.Parsing
use template_security_incide.Schemas.Parsing.{refine}
use template_security_incide.Schemas.Incident.{failed, status_eq}
use template_security_incide.Domain.Errors.{conflict, validation_failed}
use template_security_incide.Store.Rows.{Db, IncidentRow, ApprovalRow, ResumeTokenRow}
use template_security_incide.Store.Tx.{Tx, ◌>>=◌, ◌>>◌, pure, throw_if, read, expect}
use template_security_incide.Store.Writes.{incident_at}
use template_security_incide.Approvals.Resume.{
  TokenBinding, AuthoritativeApprovalResult, parse_authoritative, is_some,
}

pub record ReceiptInput : Type 0 where
  pub resume_receipt_id : String
  pub tenant_id : String
  pub incident_id : String
  pub workflow_run_id : String
  pub approval_id : String

-- ExpiredApprovalResultSchema: the version of the hash is 1, the decision `expired`.
pub record ExpiredApprovalResult : Type 0 where
  pub approval_id : String
  pub plan_id : String
  pub incident_id : String
  pub tenant_id : String
  pub workflow_run_id : String
  pub plan_hash : String
  pub expired_at : ℕ
  pub expires_at : ℕ

pub data ResumedResult : Type 0 where
  authoritative : AuthoritativeApprovalResult → ResumedResult
  expired : ExpiredApprovalResult → ResumedResult

module _ (input : ReceiptInput) where
  abbrev is_bound_approval : ApprovalRow → Bool
  is_bound_approval a =
      a.tenant_id == input.tenant_id
      && a.incident_id == input.incident_id
      && a.workflow_run_id == input.workflow_run_id

  unfoldable pub undecided_approval : Db → Option (ApprovalRow × IncidentRow)
  unfolding incident_at
  undecided_approval db = elim (db.approvals input.approval_id) [
    | none ↦ none
    | some a ↦ elim (incident_at db a.tenant_id a.incident_id) [
      | none ↦ none
      | some i ↦ if is_bound_approval a && not (is_some a.decided) then some (a, i) else none
    ]
  ]

  unfoldable pub parse_expired : ApprovalRow → IncidentRow → Option ExpiredApprovalResult
  parse_expired a i = Parsing.◌>>=◌ (opaque_id input.approval_id) λ approval_id.
      Parsing.◌>>=◌ (opaque_id a.plan_id) λ plan_id.
        Parsing.◌>>=◌ (opaque_id input.incident_id) λ incident_id.
          Parsing.◌>>=◌ (opaque_id input.tenant_id) λ tenant_id.
            Parsing.◌>>=◌ (opaque_id input.workflow_run_id) λ workflow_run_id.
              Parsing.◌>>◌ (refine (a.plan_hash_version == 1 && is_sha256 a.plan_hash)) (
                some (record {
                  approval_id = approval_id;
                  plan_id = plan_id;
                  incident_id = incident_id;
                  tenant_id = tenant_id;
                  workflow_run_id = workflow_run_id;
                  plan_hash = a.plan_hash;
                  expired_at = i.updated_at;
                  expires_at = a.expires_at;
                }))

  unfoldable pub read_expiry : Tx ResumedResult
  read_expiry = do
    found ← read undecided_approval
    row ← expect found conflict
    throw_if (not (row.1.status == failed)) conflict
    result ← expect (parse_expired row.0 row.1) validation_failed
    pure (expired result)

  abbrev is_receipt : ResumeTokenRow → Bool
  is_receipt t =
      t.id == input.resume_receipt_id
      && t.tenant_id == input.tenant_id
      && t.incident_id == input.incident_id
      && t.workflow_run_id == input.workflow_run_id
      && t.approval_id == input.approval_id

  -- A decided approval; one without a decision fails the schema, as its null does.
  unfoldable pub receipt_row : Db → Option (ResumeTokenRow × ApprovalRow)
  unfolding first_row
  receipt_row db = elim (first_row is_receipt db.approval_resume_tokens) [
    | none ↦ none
    | some t ↦ elim (db.approvals t.approval_id) [
      | none ↦ none
      | some a ↦ if is_bound_approval a then some (t, a) else none
    ]
  ]

  abbrev binding_of : TokenBinding
  binding_of = record {
    token = "";
    tenant_id = input.tenant_id;
    incident_id = input.incident_id;
    workflow_run_id = input.workflow_run_id;
    approval_id = input.approval_id;
  }

  unfoldable pub parse_receipt : ApprovalRow → Option AuthoritativeApprovalResult
  parse_receipt a = elim a.decided [
    | none ↦ none
    | some d ↦ parse_authoritative binding_of a d.decision d a.expires_at
  ]

  unfoldable pub read_decision : Tx ResumedResult
  read_decision = do
    found ← read receipt_row
    row ← expect found conflict
    throw_if (not (is_some row.0.consumed_at)) conflict
    result ← expect (parse_receipt row.1) validation_failed
    pure (authoritative result)

  unfoldable pub read_consumed_resume_receipt : Tx ResumedResult
  read_consumed_resume_receipt =
      if input.resume_receipt_id == join "expiry_" input.approval_id
      then read_expiry
      else read_decision
