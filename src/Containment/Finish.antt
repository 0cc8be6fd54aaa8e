-- ===== src/Containment/Finish.antt =====
-- src/containment/execution-claims.ts: finishContainmentAction, the end of a claimed attempt.
use template_security_incide.Prelude.{
  ℕ, String, Bool, true, not, ◌&&◌, ◌||◌, Option, none, some, ◌==◌, string_eq, any,
}
use template_security_incide.Schemas.Containment.{
  executing, ContainmentVerification, ExecutionStatus, execution_eq,
}
use template_security_incide.Domain.Errors.{storage_unavailable}
use template_security_incide.Store.ContainmentRows.{AttemptRow}
use template_security_incide.Store.Rows.{Db}
use template_security_incide.Store.Tx.{Tx, ◌>>=◌, ◌>>◌, throw_if, read}
use template_security_incide.Store.ContainmentWrites.{change_attempt, change_action}
use template_security_incide.Containment.Reads.{of_action}

-- ContainmentExecutionStatusSchema
pub data FinalStatus : Type 0 where
  completed blocked failed timed_out : FinalStatus

abbrev pub final_status : FinalStatus → ExecutionStatus
final_status completed = ExecutionStatus.completed
final_status blocked = ExecutionStatus.blocked
final_status failed = ExecutionStatus.failed
final_status timed_out = ExecutionStatus.timed_out

pub record FinishInput : Type 0 where
  pub tenant_id : String
  pub plan_id : String
  pub action_id : String
  pub fence_token : String
  pub status : FinalStatus
  pub verification : ContainmentVerification
  pub provider_ref : Option String
  pub error_code : Option String

-- CHECK(error_code IS NULL OR error_code IN (…))
unfoldable pub is_attempt_error : Option String → Bool
is_attempt_error none = true
is_attempt_error (some code) =
    code == "ACTION_BLOCKED"
    || code == "PRECONDITION_FAILED"
    || code == "RATE_LIMITED"
    || code == "PROVIDER_FAILED"
    || code == "PROVIDER_TIMEOUT"
    || code == "VERIFICATION_FAILED"

module _ (input : FinishInput) (now : ℕ) where
  abbrev pub is_fenced : AttemptRow → Bool
  is_fenced a =
      of_action input.tenant_id input.plan_id input.action_id a
      && a.fence_token == input.fence_token
      && a.status == executing

  abbrev pub ended : AttemptRow → AttemptRow
  ended a = record a {
    status = final_status input.status;
    finished_at = some now;
    error_code = input.error_code;
    provider_ref = input.provider_ref;
    verification = input.verification;
  }

  -- The CHECK of the error code speaks only where a row is met.
  unfoldable pub violates_error_check : Db → Bool
  unfolding any
  violates_error_check db =
      any is_fenced db.containment_action_attempts && not (is_attempt_error input.error_code)

  unfoldable pub finish_containment_action : Tx (Unit {0})
  finish_containment_action = do
    violated ← read violates_error_check
    throw_if violated storage_unavailable
    change_attempt is_fenced ended
    change_action
        (λ c.
          c.tenant_id == input.tenant_id
          && c.plan_id == input.plan_id
          && c.action_id == input.action_id
          && c.status == executing)
        (λ c. record c { status = final_status input.status; result_ref = input.provider_ref })
