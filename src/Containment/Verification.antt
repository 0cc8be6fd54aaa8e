-- ===== src/Containment/Verification.antt =====
-- readContainmentOutcome of src/containment/containment-verification.ts, and the schema of an outcome
-- in src/schemas/containment.ts: what the gateway reads back of an action's newest attempt.
use template_security_incide.Prelude.{String, Option, none, some}
use template_security_incide.Schemas.Common.{opaque_id}
use template_security_incide.Schemas.Parsing
use template_security_incide.Schemas.Parsing.{refine, optional_id}
use template_security_incide.Schemas.Containment.{ContainmentVerification, ExecutionStatus}
use template_security_incide.Domain.Errors.{validation_failed}
use template_security_incide.Store.Rows.{Db}
use template_security_incide.Store.ContainmentRows.{AttemptRow}
use template_security_incide.Store.Tx.{Tx, ◌>>=◌, pure, read, expect}
use template_security_incide.Containment.Reads.{newest, of_action, truthy}
use template_security_incide.Containment.Finish.{
  FinalStatus, completed, blocked, failed, timed_out, is_attempt_error,
}

-- ContainmentActionOutcomeSchema
pub record ContainmentActionOutcome : Type 0 where
  pub action_id : String
  pub status : FinalStatus
  pub verification : ContainmentVerification
  pub provider_ref : Option String
  pub error_code : Option String

-- ContainmentExecutionStatusSchema
abbrev pub parse_status : ExecutionStatus → Option FinalStatus
parse_status ExecutionStatus.pending = none
parse_status ExecutionStatus.executing = none
parse_status ExecutionStatus.completed = some completed
parse_status ExecutionStatus.blocked = some blocked
parse_status ExecutionStatus.failed = some failed
parse_status ExecutionStatus.timed_out = some timed_out

unfoldable pub parse_outcome :
    (action_id : String)
    → ExecutionStatus
    → ContainmentVerification
    → (provider_ref error_code : Option String) → Option ContainmentActionOutcome
parse_outcome action_id status verification provider_ref error_code =
    Parsing.◌>>=◌ (opaque_id action_id) λ id. Parsing.◌>>=◌ (parse_status status) λ final.
      Parsing.◌>>=◌ (optional_id provider_ref) λ ref.
        Parsing.◌>>◌ (refine (is_attempt_error error_code)) (
          some (record {
            action_id = id;
            status = final;
            verification = verification;
            provider_ref = ref;
            error_code = error_code;
          }))

-- What the function reads of a GatewayActionInput: `tenantId`, `plan.planId` and `action.actionId`.
pub record ReadInput : Type 0 where
  pub tenant_id : String
  pub plan_id : String
  pub action_id : String

unfoldable pub read_attempt : ReadInput → Db → Option AttemptRow
read_attempt input db =
    newest (of_action input.tenant_id input.plan_id input.action_id) db.containment_action_attempts

-- The columns that are empty texts are left out, like those that are NULL.
unfoldable pub outcome_of_row : (action_id : String) → AttemptRow → Option ContainmentActionOutcome
outcome_of_row action_id row =
    parse_outcome action_id row.status row.verification (truthy row.provider_ref)
      (truthy row.error_code)

-- The schema's own error, a ZodError and no domain error, is `none`.
unfoldable pub read_containment_outcome : ReadInput → Tx (Option ContainmentActionOutcome)
read_containment_outcome input = do
  found ← read (read_attempt input)
  row ← expect found validation_failed
  pure (outcome_of_row input.action_id row)
