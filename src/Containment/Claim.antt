-- ===== src/Containment/Claim.antt =====
-- src/containment/execution-claims.ts: claimContainmentAction. The claim of one action by one owner:
-- an attempt with a fence token and a lease, or the reason why there is none.
use template_security_incide.Prelude.{
  ℕ, ◌+◌, suc, String, Bool, false, not, ◌&&◌, ◌||◌, Option, none, some, ltb, leb, ◌==◌, nat_eq,
  string_eq, if◌then◌else◌,
}
use template_security_incide.Schemas.Containment.{
  executing, pending, blocked, timed_out, completed, ExecutionStatus, verified, not_run, uncertain,
  EffectStatus, execution_eq, effect_eq,
}
use template_security_incide.Store.ContainmentRows.{
  ActionRow, AttemptRow, GatewayAuditOutcome, GatewayAuditReason,
}
use template_security_incide.Store.Tx.{Tx, ◌>>=◌, ◌>>◌, pure, read}
use template_security_incide.Store.ContainmentWrites.{
  insert_attempt, insert_audit, change_attempt, change_action, change_effect,
}
use template_security_incide.Containment.Reads.{
  ClaimInput, ClaimDependencies, ActionClaim, DenialReason, replayed, denied, granted,
  max_workos_reconciliation_attempts, verified_attempt, latest_attempt, attempts_made,
  uncertain_workos, is_live, truthy, is_claimed_action, durable_effect, authorized_action,
  recent_of,
}

module _ (input : ClaimInput) (deps : ClaimDependencies) where
  abbrev pub audit : GatewayAuditOutcome → GatewayAuditReason → Tx (Unit {0})
  audit outcome reason_code = insert_audit (record {
    id = deps.audit_id;
    claimed_tenant_id = input.tenant_id;
    claimed_incident_id = input.incident_id;
    claimed_plan_id = input.plan_id;
    claimed_approval_id = input.approval_id;
    claimed_action_id = input.action_id;
    outcome = outcome;
    reason_code = reason_code;
    occurred_at = deps.now;
  })

  abbrev pub deny : GatewayAuditOutcome → GatewayAuditReason → DenialReason → Tx ActionClaim
  deny outcome reason_code reason = do audit outcome reason_code; pure (denied reason)

  abbrev pub replay : Option String → Tx ActionClaim
  replay provider_ref = do
    audit GatewayAuditOutcome.replayed GatewayAuditReason.already_verified
    pure (replayed provider_ref)

  -- WHERE id = ? AND status = 'executing' AND fence_token = ?
  abbrev pub is_held : AttemptRow → AttemptRow → Bool
  is_held row a = a.id == row.id && a.status == executing && a.fence_token == row.fence_token

  -- The same, with `lease_expires_at <= ?`.
  abbrev pub is_lapsed : AttemptRow → AttemptRow → Bool
  is_lapsed row a = is_held row a && leb a.lease_expires_at deps.now

  abbrev pub stopped : AttemptRow → AttemptRow
  stopped a = record a {
    status = ExecutionStatus.failed;
    finished_at = some deps.now;
    error_code = some "PROVIDER_FAILED";
    verification = not_run;
  }

  abbrev pub reconciled : String → AttemptRow → AttemptRow
  reconciled provider_ref a = record a {
    status = completed;
    finished_at = some deps.now;
    provider_ref = some provider_ref;
    verification = verified;
  }

  -- The attempt that would be the next one.
  abbrev pub next_attempt : Option AttemptRow → AttemptRow
  next_attempt row = record {
    id = deps.attempt_id;
    tenant_id = input.tenant_id;
    incident_id = input.incident_id;
    plan_id = input.plan_id;
    approval_id = input.approval_id;
    action_id = input.action_id;
    idempotency_key = input.idempotency_key;
    attempt = suc (attempts_made row);
    owner_id = input.owner_id;
    fence_token = deps.fence_token;
    status = executing;
    started_at = deps.now;
    finished_at = none;
    lease_expires_at = deps.now + input.lease_ms;
    error_code = none;
    provider_ref = none;
    verification = not_run;
  }

  unfoldable pub expire_attempt : Option AttemptRow → Tx (Unit {0})
  expire_attempt none = pure tt
  expire_attempt (some row) =
      if row.status == executing then change_attempt (is_lapsed row) stopped else pure tt

  abbrev pub is_executing : Option AttemptRow → Bool
  is_executing none = false
  is_executing (some row) = row.status == executing

  abbrev pub is_open : Option AttemptRow → ExecutionStatus → Bool
  is_open row status =
      if is_executing row
      then status == executing
      else (status == timed_out || status == ExecutionStatus.failed)

  -- The budget of readbacks is used up: the action and its ledger entry fail.
  unfoldable pub give_up : Option AttemptRow → Tx ActionClaim
  give_up row = do
    expire_attempt row
    change_action (λ c. is_claimed_action input c && is_open row c.status)
        (λ c. record c { status = ExecutionStatus.failed })
    change_effect (λ e. e.idempotency_key == input.idempotency_key && e.status == uncertain)
        (λ e. record e { status = EffectStatus.failed; completed_at = some deps.now })
    deny GatewayAuditOutcome.rate_limited GatewayAuditReason.rate_limited DenialReason.rate_limited

  unfoldable pub reconcile : AttemptRow → String → Tx ActionClaim
  reconcile row provider_ref = do
    change_attempt (is_held row) (reconciled provider_ref)
    change_action (λ c. is_claimed_action input c && c.status == executing)
        (λ c. record c { status = completed; result_ref = some provider_ref })
    replay (some provider_ref)

  unfoldable pub fence_off : AttemptRow → Tx (Unit {0})
  fence_off row = do
    change_attempt (is_held row) stopped
    change_action (λ c. is_claimed_action input c && c.status == executing)
        (λ c. record c { status = ExecutionStatus.failed })

  unfoldable pub grant : Option AttemptRow → Tx ActionClaim
  grant row = do
    insert_attempt (next_attempt row)
    change_action
        (λ c.
          is_claimed_action input c
          && (c.status == pending
              || c.status == ExecutionStatus.failed
              || c.status == blocked
              || c.status == timed_out))
        (λ c. record c { status = executing })
    pure (granted deps.fence_token (suc (attempts_made row)))

  unfoldable pub grant_in_order : Option AttemptRow → Option ActionRow → ℕ → Tx ActionClaim
  grant_in_order row none recent =
      deny GatewayAuditOutcome.blocked GatewayAuditReason.predecessor_incomplete
        DenialReason.predecessor_incomplete
  grant_in_order row (some current) recent =
      if leb input.rate_limit recent
      then deny GatewayAuditOutcome.rate_limited GatewayAuditReason.rate_limited
          DenialReason.rate_limited
      else grant row

  unfoldable pub try_grant : Option AttemptRow → Tx ActionClaim
  try_grant row = do
    current ← read (authorized_action input)
    recent ← read (recent_of input deps.now current)
    grant_in_order row current recent

  unfoldable pub take_over : AttemptRow → Option String → Tx ActionClaim
  take_over row (some provider_ref) = reconcile row provider_ref
  take_over row none = do fence_off row; try_grant (some row)

  unfoldable pub claim_after : Option AttemptRow → Tx ActionClaim
  claim_after none = try_grant none
  claim_after (some row) =
      if not (row.status == executing)
      then try_grant (some row)
      else if ltb deps.now row.lease_expires_at
      then deny GatewayAuditOutcome.replayed GatewayAuditReason.action_in_progress
          DenialReason.action_in_progress
      else (read (durable_effect input row) >>= take_over row)

  unfoldable pub claim_within : Option AttemptRow → Bool → Tx ActionClaim
  claim_within row uncertain_effect =
      if leb (3 + max_workos_reconciliation_attempts) (attempts_made row)
        && uncertain_effect
        && not (is_live deps.now row)
      then give_up row
      else if leb 3 (attempts_made row) && not uncertain_effect
      then deny GatewayAuditOutcome.rate_limited GatewayAuditReason.rate_limited
          DenialReason.rate_limited
      else claim_after row

  unfoldable pub claim_unverified : Option AttemptRow → Tx ActionClaim
  claim_unverified (some done) = replay (truthy done.provider_ref)
  claim_unverified none = do
    row ← read (latest_attempt input)
    uncertain_effect ← read (uncertain_workos input)
    claim_within row uncertain_effect

  unfoldable pub claim_containment_action : Tx ActionClaim
  claim_containment_action = read (verified_attempt input) >>= claim_unverified
