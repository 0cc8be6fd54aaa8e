-- ===== src/Store/ContainmentRows.antt =====
-- The rows of the tables that an execution writes: src/db/migrations/0001-operational-schema.ts,
-- 0006-phase6-approval-containment.ts and 0007-phase8-provider-durability.ts. The texts of an
-- action's input and the columns that are constant are left out.
use template_security_incide.Prelude.{ℕ, String, Option}
use template_security_incide.Schemas.Containment.{
  ContainmentActionType, ContainmentVerification, ExecutionStatus, EffectStatus,
}

pub record ActionRow : Type 0 where
  pub tenant_id : String
  pub incident_id : String
  pub plan_id : String
  pub action_id : String
  pub action_type : ContainmentActionType
  pub target_id : Option String
  pub ordinal : ℕ
  pub idempotency_key : String
  pub status : ExecutionStatus
  pub result_ref : Option String

pub record AttemptRow : Type 0 where
  pub id : String
  pub tenant_id : String
  pub incident_id : String
  pub plan_id : String
  pub approval_id : String
  pub action_id : String
  pub idempotency_key : String
  pub attempt : ℕ
  pub owner_id : String
  pub fence_token : String
  pub status : ExecutionStatus
  pub started_at : ℕ
  pub finished_at : Option ℕ
  pub lease_expires_at : ℕ
  pub error_code : Option String
  pub provider_ref : Option String
  pub verification : ContainmentVerification

-- A row of provider 'workos'.
pub record EffectRow : Type 0 where
  pub idempotency_key : String
  pub tenant_id : String
  pub incident_id : String
  pub operation : ContainmentActionType
  pub plan_id : String
  pub action_id : String
  pub target_id : String
  pub status : EffectStatus
  pub external_ref : Option String
  pub fence_token : String
  pub claimed_at : ℕ
  pub completed_at : Option ℕ

-- mock_containment_effects, as far as a claim reads it.
pub record MockEffectRow : Type 0 where
  pub tenant_id : String
  pub incident_id : String
  pub plan_id : String
  pub action_id : String
  pub attempt : ℕ
  pub fence_token : String
  pub provider_ref : String

pub data GatewayAuditOutcome : Type 0 where
  invalid blocked expired rate_limited replayed : GatewayAuditOutcome

pub data GatewayAuditReason : Type 0 where
  binding_invalid mode_blocked approval_expired predecessor_incomplete : GatewayAuditReason
  rate_limited already_verified action_in_progress : GatewayAuditReason

pub record GatewayAuditRow : Type 0 where
  pub id : String
  pub claimed_tenant_id : String
  pub claimed_incident_id : String
  pub claimed_plan_id : String
  pub claimed_approval_id : String
  pub claimed_action_id : String
  pub outcome : GatewayAuditOutcome
  pub reason_code : GatewayAuditReason
  pub occurred_at : ℕ
