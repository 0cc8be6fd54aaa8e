-- ===== src/Approvals/Resume.antt =====
-- src/db/approval-resume-operations.ts: the one-time token that a decision has issued resumes the
-- workflow, and the receipt of it is read back. `sha256` stands for the digest of a token.
use template_security_incide.Prelude.{
  ℕ, String, Bool, true, false, not, ◌&&◌, Option, none, some, first_row, count_rows, update_rows,
  any, ltb, ◌==◌, nat_eq, string_eq, option_eq, if◌then◌else◌,
}
use template_security_incide.Schemas.Common.{opaque_id, is_sha256}
use template_security_incide.Schemas.Parsing
use template_security_incide.Schemas.Parsing.{refine}
use template_security_incide.Schemas.Incident.{status_eq}
use template_security_incide.Domain.Errors.{
  conflict, validation_failed, storage_unavailable, domain_error,
}
use template_security_incide.Store.Rows.{
  Db, IncidentRow, ApprovalRow, ResumeTokenRow, Decision, DecisionColumns,
}
use template_security_incide.Store.Tx.{Tx, ok, err, ◌>>=◌, ◌>>◌, pure, throw_if, read, expect}
use template_security_incide.Store.Writes.{incident_at}
use template_security_incide.Approvals.Decide.{decided_status}
use template_security_incide.Approvals.Token.{digest_resume_token}

pub record TokenBinding : Type 0 where
  pub token : String
  pub tenant_id : String
  pub incident_id : String
  pub workflow_run_id : String
  pub approval_id : String

-- AuthoritativeApprovalResultSchema: the version of the hash is 1, the role soc_manager.
pub record AuthoritativeApprovalResult : Type 0 where
  pub approval_id : String
  pub plan_id : String
  pub incident_id : String
  pub tenant_id : String
  pub workflow_run_id : String
  pub plan_hash : String
  pub decision : Decision
  pub decided_by : String
  pub decided_at : ℕ
  pub expires_at : ℕ

pub record ResumeReceipt : Type 0 where
  pub resume_receipt_id : String
  pub authoritative : AuthoritativeApprovalResult
  pub resumed : Bool

-- A row of the join of a token with its approval and its incident.
pub record TokenRow : Type 0 where
  pub token : ResumeTokenRow
  pub approval : ApprovalRow
  pub decided : DecisionColumns
  pub incident : IncidentRow

abbrev pub is_bound : String → TokenBinding → ResumeTokenRow → Bool
is_bound digest input t =
    t.token_digest == digest
    && t.tenant_id == input.tenant_id
    && t.incident_id == input.incident_id
    && t.workflow_run_id == input.workflow_run_id
    && t.approval_id == input.approval_id

unfoldable pub bound_token : String → TokenBinding → Db → Option ResumeTokenRow
unfolding first_row
bound_token digest input db = first_row (is_bound digest input) db.approval_resume_tokens

-- An approval without a decision has no role, which is no `soc_manager`; no row stands for it too.
unfoldable pub joined : Db → ResumeTokenRow → Option TokenRow
unfolding incident_at
joined db t = elim (db.approvals t.approval_id) [
  | none ↦ none
  | some a ↦ elim (incident_at db t.tenant_id t.incident_id) [
    | none ↦ none
    | some i ↦ elim a.decided [
      | none ↦ none
      | some d ↦
          if a.tenant_id == t.tenant_id && a.incident_id == t.incident_id
          then some (record { token = t; approval = a; decided = d; incident = i })
          else none
    ]
  ]
]

-- The conditions under which a token authorizes.
abbrev pub is_authorized : TokenBinding → (now : ℕ) → TokenRow → Bool
is_authorized input now row =
    ltb now row.token.expires_at
    && row.approval.expires_at == row.token.expires_at
    && row.incident.current_plan_id == some row.approval.plan_id
    && row.incident.current_run_id == some input.workflow_run_id
    && row.incident.status == decided_status row.token.decision
    && row.decided.decided_by_role == "soc_manager"

-- WHERE id = ? AND consumed_at IS NULL AND expires_at > ?
abbrev pub is_unconsumed : (now : ℕ) → ResumeTokenRow → ResumeTokenRow → Bool
is_unconsumed now t r = r.id == t.id && r.consumed_at == none && ltb now r.expires_at

abbrev pub consumed : (now : ℕ) → ResumeTokenRow → ResumeTokenRow
consumed now r = record r { consumed_at = some now }

-- The CHECK of consumed_at against issued_at speaks where the row is met; the trigger lets a first
-- consumption pass.
unfoldable pub consume : (now : ℕ) → ResumeTokenRow → Tx (Unit {0})
unfolding count_rows update_rows
consume now t db = elim t.consumed_at [
  | some at ↦ ok (tt, db)
  | none ↦
      if not (count_rows (is_unconsumed now t) db.approval_resume_tokens == 1)
      then err (domain_error conflict)
      else if ltb now t.issued_at
      then err (domain_error storage_unavailable)
      else ok (
        tt,
        record db {
          approval_resume_tokens =
              update_rows (is_unconsumed now t) (consumed now) db.approval_resume_tokens;
        },
      )
]

-- parseDomainSchema(AuthoritativeApprovalResultSchema, …)
unfoldable pub parse_authoritative :
    TokenBinding
    → ApprovalRow
    → Decision
    → DecisionColumns
    → (expires_at : ℕ) → Option AuthoritativeApprovalResult
parse_authoritative input a decision d expires_at =
    Parsing.◌>>=◌ (opaque_id input.approval_id) λ approval_id.
      Parsing.◌>>=◌ (opaque_id a.plan_id) λ plan_id.
        Parsing.◌>>=◌ (opaque_id input.incident_id) λ incident_id.
          Parsing.◌>>=◌ (opaque_id input.tenant_id) λ tenant_id.
            Parsing.◌>>=◌ (opaque_id input.workflow_run_id) λ workflow_run_id.
              Parsing.◌>>◌
                (refine (
                  a.plan_hash_version == 1
                  && is_sha256 a.plan_hash
                  && d.decided_by_role == "soc_manager"))
                (Parsing.◌>>=◌ (opaque_id d.decided_by) λ decided_by. some (record {
                  approval_id = approval_id;
                  plan_id = plan_id;
                  incident_id = incident_id;
                  tenant_id = tenant_id;
                  workflow_run_id = workflow_run_id;
                  plan_hash = a.plan_hash;
                  decision = decision;
                  decided_by = decided_by;
                  decided_at = d.decided_at;
                  expires_at = expires_at;
                }))

abbrev pub is_some : {A : Type 0} → Option A → Bool
is_some none = false
is_some (some _) = true

module _ (sha256 : String → String) (input : TokenBinding) (now : ℕ) where
  -- The row of the join, if the token is bound.
  unfoldable pub token_row : String → Db → Option TokenRow
  token_row digest db = elim (bound_token digest input db) [ none ↦ none | some t ↦ joined db t ]

  unfoldable pub authorize_resume_token : Tx ResumeReceipt
  authorize_resume_token = do
    digest ← expect (digest_resume_token sha256 input.token) validation_failed
    found ← read (token_row digest)
    row ← expect found conflict
    throw_if (not (is_authorized input now row)) conflict
    consume now row.token
    authoritative ←
        expect
          (parse_authoritative input row.approval row.token.decision row.decided
            row.token.expires_at)
          validation_failed
    pure (record {
      resume_receipt_id = row.token.id;
      authoritative = authoritative;
      resumed = is_some row.token.resumed_at;
    })

  -- `existing.rows[0]?.consumed_at`
  unfoldable pub is_consumed : String → Db → Bool
  is_consumed digest db = elim (bound_token digest input db) [
    | none ↦ false
    | some t ↦ is_some t.consumed_at
  ]

  unfoldable pub consume_resume_token : Tx AuthoritativeApprovalResult
  consume_resume_token = do
    digest ← expect (digest_resume_token sha256 input.token) validation_failed
    consumed ← read (is_consumed digest)
    throw_if consumed conflict
    receipt ← authorize_resume_token
    pure receipt.authoritative

-- markResumeReceiptResumed, with the CHECK of resumed_at against consumed_at.
unfoldable pub mark_resume_receipt_resumed : String → (now : ℕ) → Tx (Unit {0})
unfolding count_rows update_rows first_row any
mark_resume_receipt_resumed id now db =
    let meets : ResumeTokenRow → Bool =
      λ r. r.id == id && is_some r.consumed_at && not (is_some r.resumed_at) in
    if count_rows meets db.approval_resume_tokens == 1
    then (if any (λ r. meets r && ltb now (elim r.consumed_at [ none ↦ 0 | some at ↦ at ]))
          db.approval_resume_tokens
        then err (domain_error storage_unavailable)
        else ok (
          tt,
          record db {
            approval_resume_tokens =
                update_rows meets (λ r. record r { resumed_at = some now })
                  db.approval_resume_tokens;
          },
        ))
    else elim (first_row (λ (r : ResumeTokenRow). r.id == id) db.approval_resume_tokens) [
      | none ↦ err (domain_error conflict)
      | some r ↦ if is_some r.resumed_at then ok (tt, db) else err (domain_error conflict)
    ]
