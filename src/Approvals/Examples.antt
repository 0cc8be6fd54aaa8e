-- ===== src/Approvals/Examples.antt =====
-- A token that is authorized, and then consumed.
use template_security_incide.Prelude.{
  inl, inr, String, false, none, some, [], ◌∷◌, ◌≡◌, refl, put, first_row, count_rows, update_rows,
  any,
}
use template_security_incide.Schemas.Common.{is_sha256, utf16_length, trimmed_within}
use template_security_incide.Schemas.Incident.{IncidentStatus}
use template_security_incide.Domain.Errors.{conflict, domain_error}
use template_security_incide.Store.Rows.{
  Db, ApprovalRow, ResumeTokenRow, approved, DecisionColumns, dashboard,
}
use template_security_incide.Store.Tx.{Result, ok, err, steps}
use template_security_incide.Lifecycle.Fixtures.{db_with, db_or, running, plan_hash}
use template_security_incide.Approvals.Token.{is_token, digest_resume_token}
use template_security_incide.Approvals.Resume.{
  TokenBinding, ResumeReceipt, bound_token, joined, consume, parse_authoritative, token_row,
  authorize_resume_token, consume_resume_token,
}
use template_security_incide.Approvals.Bound.{TokensBound}
use template_security_incide.Approvals.Resumption.{
  token_consumed_once, authorized_while_current, CurrentDecision,
}

abbrev decision : DecisionColumns
decision = record {
  decision = approved;
  decided_by = "manager-1";
  decided_by_role = "soc_manager";
  decision_reason = none;
  decided_at = 300;
  decision_fingerprint = plan_hash;
  decision_provenance = dashboard;
}

abbrev approval : ApprovalRow
approval = record {
  id = "approval-1";
  plan_id = "plan-1";
  incident_id = "inc-1";
  tenant_id = "tenant-1";
  plan_hash_version = 1;
  plan_hash = plan_hash;
  requested_at = 200;
  expires_at = 900;
  workflow_run_id = "run-1";
  decided = some decision;
}

abbrev resume_token : ResumeTokenRow
resume_token = record {
  id = "token-1";
  tenant_id = "tenant-1";
  incident_id = "inc-1";
  workflow_run_id = "run-1";
  approval_id = "approval-1";
  decision = approved;
  decision_fingerprint = plan_hash;
  token_digest = "p6r1_aaaaaaaaaaaaaaaaaaaaaaaaaaaaaaaa";
  issued_at = 300;
  expires_at = 900;
  consumed_at = none;
  resumed_at = none;
}

abbrev decided_db : Db
decided_db = record (db_with IncidentStatus.approved) {
  approvals = put "approval-1" approval (db_with IncidentStatus.approved).approvals;
  approval_resume_tokens = resume_token ∷ [];
}

abbrev token_input : TokenBinding
token_input = record {
  token = "p6r1_aaaaaaaaaaaaaaaaaaaaaaaaaaaaaaaa";
  tenant_id = "tenant-1";
  incident_id = "inc-1";
  workflow_run_id = "run-1";
  approval_id = "approval-1";
}

abbrev digest : String → String
digest token = token

abbrev receipt : ResumeReceipt
receipt = record {
  resume_receipt_id = "token-1";
  authoritative = record {
    approval_id = "approval-1";
    plan_id = "plan-1";
    incident_id = "inc-1";
    tenant_id = "tenant-1";
    workflow_run_id = "run-1";
    plan_hash = plan_hash;
    decision = approved;
    decided_by = "manager-1";
    decided_at = 300;
    expires_at = 900;
  };
  resumed = false;
}

abbrev authorizing : Result (ResumeReceipt × Db)
authorizing = authorize_resume_token digest token_input 400 decided_db

abbrev authorized_db : Db
authorized_db = db_or decided_db authorizing

authorizes : authorizing ≡ ok (receipt, authorized_db)
unfolding running steps is_token digest_resume_token bound_token joined consume parse_authoritative
    token_row authorize_resume_token is_sha256 utf16_length trimmed_within first_row count_rows
    update_rows any
authorizes = refl

token_consumed_once_example :
    consume_resume_token digest token_input 401 authorized_db ≡ err (domain_error conflict)
token_consumed_once_example =
    token_consumed_once digest token_input 400 401 decided_db authorized_db receipt authorizes

decided_bound : TokensBound decided_db
unfolding put
decided_bound t (inr gone) = elim gone [ ]
decided_bound t (inl is_t) = rw is_t (approval, decision, refl, refl, refl, refl)

authorized_while_current_example : CurrentDecision token_input 400 decided_db receipt.authoritative
authorized_while_current_example =
    authorized_while_current digest token_input 400 decided_db authorized_db receipt decided_bound
      authorizes
