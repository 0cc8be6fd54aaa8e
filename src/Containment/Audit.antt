-- ===== src/Containment/Audit.antt =====
-- src/containment/execution-claims.ts: auditGatewayAttempt, the record that the gateway leaves of an
-- attempt that it has not let through.
use template_security_incide.Prelude.{ℕ, String}
use template_security_incide.Store.ContainmentRows.{GatewayAuditOutcome, GatewayAuditReason}
use template_security_incide.Store.Tx.{Tx}
use template_security_incide.Store.ContainmentWrites.{insert_audit}

pub record GatewayAttempt : Type 0 where
  pub tenant_id : String
  pub incident_id : String
  pub plan_id : String
  pub approval_id : String
  pub action_id : String
  pub outcome : GatewayAuditOutcome
  pub reason_code : GatewayAuditReason

unfoldable pub audit_gateway_attempt : GatewayAttempt → (id : String) (now : ℕ) → Tx (Unit {0})
audit_gateway_attempt input id now = insert_audit (record {
  id = id;
  claimed_tenant_id = input.tenant_id;
  claimed_incident_id = input.incident_id;
  claimed_plan_id = input.plan_id;
  claimed_approval_id = input.approval_id;
  claimed_action_id = input.action_id;
  outcome = input.outcome;
  reason_code = input.reason_code;
  occurred_at = now;
})
