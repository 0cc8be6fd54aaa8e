-- ===== src/Containment/Examples.antt =====
-- An action that is claimed, claimed again, ended, and whose effect is claimed.
use template_security_incide.Prelude.{
  ℕ, ◌≤◌, String, true, false, none, some, [], ◌∷◌, ◌≡◌, ◌≢◌, refl, inl, ◌∈◌, string_eq, count_rows,
  first_row, update_rows, any,
}
use template_security_incide.Schemas.Incident.{containing}
use template_security_incide.Schemas.Containment.{
  revoke_session, pending, executing, completed, verified, not_run,
}
use template_security_incide.Domain.Errors.{conflict, validation_failed, domain_error}
use template_security_incide.Store.ContainmentRows.{ActionRow, AttemptRow}
use template_security_incide.Store.Rows.{Db}
use template_security_incide.Store.Tx.{Result, ok, err, steps}
use template_security_incide.Store.ContainmentWrites.{
  is_sized, has_parents, same_attempt_key, insert_attempt, insert_audit, change_attempt,
  change_action, change_effect,
}
use template_security_incide.Lifecycle.Fixtures.{db_with, db_or, running}
use template_security_incide.Containment.Reads.{
  ClaimInput, ClaimDependencies, ActionClaim, granted, denied, replayed, newest, of_action,
  DenialReason, verified_attempt, latest_attempt, uncertain_workos, durable_effect, claimed_action,
  predecessors_incomplete, recent_attempts, authorized_action,
}
use template_security_incide.Containment.Claim.{
  claim_containment_action, claim_unverified, claim_within, claim_after, try_grant, take_over,
  grant_in_order, grant, reconcile, fence_off, give_up, expire_attempt,
}
use template_security_incide.Containment.Finish.{
  FinishInput, FinalStatus, finish_containment_action, violates_error_check, is_attempt_error,
}
use template_security_incide.Containment.Effects.{
  ProviderEffectBinding, EffectClaim, claim_provider_effect, insert_effect, inherit_fence,
  effect_of, is_authoritative, has_subject, joined_action, differs,
}
use template_security_incide.Containment.Verification.{
  ReadInput, read_containment_outcome, parse_outcome,
}
use template_security_incide.Containment.Readback.{
  read_containment_outcome-finish_containment_action,
}
use template_security_incide.Containment.Attempts.{OneLive}
use template_security_incide.Containment.Steps.{is_granted}
use template_security_incide.Containment.Execution.{History, start, next_step, claims}
use template_security_incide.Containment.Safety.{History-OneLive}
use template_security_incide.Containment.Numbers.{at_most_six}
use template_security_incide.Containment.Exclusion.{live_lease_excludes, verified_not_granted}
use template_security_incide.Containment.Fences.{stale_fence_refused}
use template_security_incide.Containment.Mutations.{stale_fence_no_effect, one_mutation_per_key}
use template_security_incide.Containment.Grounds.{claim_containment_action-GrantedOn, GrantedOn}

abbrev action : ActionRow
action = record {
  tenant_id = "tenant-1";
  incident_id = "inc-1";
  plan_id = "plan-1";
  action_id = "action-1";
  action_type = revoke_session;
  target_id = some "session-1";
  ordinal = 0;
  idempotency_key = "plan-1:action-1";
  status = pending;
  result_ref = none;
}

abbrev waiting : Db
waiting = record (db_with containing) { containment_actions = action ∷ [] }

abbrev claim : ClaimInput
claim = record {
  tenant_id = "tenant-1";
  incident_id = "inc-1";
  plan_id = "plan-1";
  approval_id = "approval-1";
  action_id = "action-1";
  idempotency_key = "plan-1:action-1";
  owner_id = "gateway";
  lease_ms = 500;
  rate_limit = 5;
}

abbrev claim_at : ℕ → String → ClaimDependencies
claim_at now fence_token = record {
  now = now;
  audit_id = "audit-1";
  fence_token = fence_token;
  attempt_id = "attempt-1";
}

-- Opens everything that a run computes.
unfoldable pub executes : Unit {0}
unfolding running steps is_sized has_parents same_attempt_key insert_attempt insert_audit
    change_attempt change_action change_effect newest of_action verified_attempt latest_attempt
    uncertain_workos durable_effect claimed_action predecessors_incomplete recent_attempts
    authorized_action claim_containment_action claim_unverified claim_within claim_after try_grant
    take_over grant_in_order grant reconcile fence_off give_up expire_attempt claim_provider_effect
    insert_effect inherit_fence effect_of is_authoritative has_subject joined_action differs
    count_rows first_row update_rows any
executes = tt

abbrev claiming : Result (ActionClaim × Db)
claiming = claim_containment_action claim (claim_at 1000 "fence-1") waiting

abbrev claimed_db : Db
claimed_db = db_or waiting claiming

grants : claiming ≡ ok (granted "fence-1" 1, claimed_db)
unfolding executes
grants = refl

nothing_lives : OneLive waiting.containment_action_attempts
nothing_lives a b m = elim m [ ]

claimed_once : History waiting claimed_db
claimed_once = next_step start (claims claim (claim_at 1000 "fence-1") (granted "fence-1" 1) grants)

one_lives : OneLive claimed_db.containment_action_attempts
one_lives = History-OneLive waiting claimed_db claimed_once nothing_lives

History-OneLive_example : OneLive claimed_db.containment_action_attempts
History-OneLive_example = History-OneLive waiting claimed_db claimed_once nothing_lives

nothing_counted :
    count_rows (of_action "tenant-1" "plan-1" "action-1") waiting.containment_action_attempts ≡ 0
unfolding executes
nothing_counted = refl

at_most_six_example :
    count_rows (of_action "tenant-1" "plan-1" "action-1") claimed_db.containment_action_attempts ≤ 6
at_most_six_example =
    at_most_six "tenant-1" "plan-1" "action-1" waiting claimed_db claimed_once nothing_counted

claim_containment_action-GrantedOn_example : GrantedOn claim 1000 waiting 1
claim_containment_action-GrantedOn_example =
    claim_containment_action-GrantedOn claim (claim_at 1000 "fence-1") waiting claimed_db "fence-1"
      1 grants

-- The attempt of the claim.
abbrev attempt : AttemptRow
attempt = record {
  id = "attempt-1";
  tenant_id = "tenant-1";
  incident_id = "inc-1";
  plan_id = "plan-1";
  approval_id = "approval-1";
  action_id = "action-1";
  idempotency_key = "plan-1:action-1";
  attempt = 1;
  owner_id = "gateway";
  fence_token = "fence-1";
  status = executing;
  started_at = 1000;
  finished_at = none;
  lease_expires_at = 1500;
  error_code = none;
  provider_ref = none;
  verification = not_run;
}

attempted : attempt ∈ claimed_db.containment_action_attempts
unfolding executes
attempted = inl refl

attempt_of : of_action "tenant-1" "plan-1" "action-1" attempt ≡ true
unfolding of_action
attempt_of = refl

abbrev second : Result (ActionClaim × Db)
second = claim_containment_action claim (claim_at 1499 "fence-2") claimed_db

second_denied : second ≡ ok (denied DenialReason.action_in_progress, db_or waiting second)
unfolding executes
second_denied = refl

live_lease_excludes_example : is_granted (denied DenialReason.action_in_progress) ≡ false
live_lease_excludes_example =
    live_lease_excludes claim (claim_at 1499 "fence-2") claimed_db (db_or waiting second)
      (denied DenialReason.action_in_progress) attempt one_lives attempted attempt_of refl refl
      second_denied

abbrev end : FinishInput
end = record {
  tenant_id = "tenant-1";
  plan_id = "plan-1";
  action_id = "action-1";
  fence_token = "fence-0";
  status = FinalStatus.completed;
  verification = verified;
  provider_ref = none;
  error_code = none;
}

stale_fence_refused_example :
    finish_containment_action end 1100 claimed_db ≡ err (domain_error conflict)
stale_fence_refused_example =
    stale_fence_refused claim (claim_at 1000 "fence-1") waiting claimed_db "fence-1" 1 end 1100
      nothing_lives grants refl refl refl refl

-- The end that holds the attempt, and what is read back of it.
abbrev due_end : FinishInput
due_end = record end { fence_token = "fence-1"; provider_ref = some "session-1" }

abbrev ended_db : Db
ended_db = db_or waiting (finish_containment_action due_end 1100 claimed_db)

ends : finish_containment_action due_end 1100 claimed_db ≡ ok (tt, ended_db)
unfolding executes finish_containment_action violates_error_check is_attempt_error
ends = refl

abbrev reading : ReadInput
reading = record { tenant_id = "tenant-1"; plan_id = "plan-1"; action_id = "action-1" }

read_containment_outcome-finish_containment_action_example :
    read_containment_outcome reading ended_db
    ≡ ok (parse_outcome "action-1" completed verified (some "session-1") none, ended_db)
read_containment_outcome-finish_containment_action_example =
    read_containment_outcome-finish_containment_action due_end 1100 reading claimed_db ended_db
      one_lives ends refl refl refl

abbrev effect : String → ProviderEffectBinding
effect fence_token = record {
  tenant_id = "tenant-1";
  incident_id = "inc-1";
  approval_id = "approval-1";
  subject_id = "user-1";
  plan_id = "plan-1";
  action_id = "action-1";
  target_id = "session-1";
  idempotency_key = "plan-1:action-1";
  fence_token = fence_token;
  operation = revoke_session;
  now = 1100;
}

stale_fence_no_effect_example :
    claim_provider_effect (effect "fence-0") claimed_db ≡ err (domain_error validation_failed)
stale_fence_no_effect_example =
    stale_fence_no_effect claim (claim_at 1000 "fence-1") waiting claimed_db "fence-1" 1
      (effect "fence-0") nothing_lives grants refl refl refl refl

abbrev effect_claim : Result (EffectClaim × Db)
effect_claim = claim_provider_effect (effect "fence-1") claimed_db

abbrev effect_db : Db
effect_db = db_or waiting effect_claim

effect_claimed : effect_claim ≡ ok (EffectClaim.claimed, effect_db)
unfolding executes
effect_claimed = refl

effect_in_flight :
    claim_provider_effect (effect "fence-1") effect_db ≡ ok (EffectClaim.in_flight, effect_db)
unfolding executes
effect_in_flight = refl

one_mutation_per_key_example : EffectClaim.in_flight ≢ EffectClaim.claimed
one_mutation_per_key_example =
    one_mutation_per_key (effect "fence-1") (effect "fence-1") claimed_db effect_db effect_db
      effect_db EffectClaim.in_flight effect_claimed start refl effect_in_flight

abbrev verified_attempt_row : AttemptRow
verified_attempt_row = record attempt {
  status = completed;
  finished_at = some 1200;
  verification = verified;
}

abbrev verified_db : Db
verified_db = record waiting { containment_action_attempts = verified_attempt_row ∷ [] }

abbrev replaying : Result (ActionClaim × Db)
replaying = claim_containment_action claim (claim_at 1300 "fence-2") verified_db

replays : replaying ≡ ok (replayed none, db_or waiting replaying)
unfolding executes
replays = refl

verified_of : of_action "tenant-1" "plan-1" "action-1" verified_attempt_row ≡ true
unfolding of_action
verified_of = refl

verified_not_granted_example : is_granted (replayed none) ≡ false
verified_not_granted_example =
    verified_not_granted claim (claim_at 1300 "fence-2") verified_db verified_db
      (db_or waiting replaying) (replayed none) verified_attempt_row (inl refl) verified_of refl
      start replays
