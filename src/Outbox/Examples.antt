-- ===== src/Outbox/Examples.antt =====
-- An outbox with one event, through claims, failures and dead letters.
use template_security_incide.Prelude.{
  ◌↔◌, ℕ, ◌+◌, ◌*◌, ◌≤◌, ◌<◌, max, String, true, false, Option, none, some, List, [], ◌∷◌, ◌≡◌, ◌≢◌,
  refl, any, first_row, empty, ◌==◌, string_eq, update_rows, count_rows, arith,
}
use template_security_incide.Schemas.Events.{alert_received}
use template_security_incide.Store.Rows.{Db, OutboxRow, WorkflowRunRow, DeadLetterRow}
use template_security_incide.Outbox.Claim.{ClaimInput, claiming, claims, leased_db, is_claimable}
use template_security_incide.Outbox.Backoff.{backoff_with_deterministic_jitter, jittered}
use template_security_incide.Outbox.Settle.{
  FailureInput, pubsub_unavailable, retry, dead_letter, fence_lost, workflow_run_exists, is_leased,
  mark_outbox_published, record_outbox_failure, record_failure_of, update_outbox,
  insert_dead_letter, dead_letter_id, available_again,
}
use template_security_incide.Outbox.Rows.{Distinct}
use template_security_incide.Outbox.Leases.{stale_lease, claims_disjoint}
use template_security_incide.Outbox.Due.{DueRow, claims_sound, claims_exact}
use template_security_incide.Outbox.Retries.{
  backoff-bounds, retry_waits, dead_letter_stops, failure_with_run,
}

abbrev row : ℕ → OutboxRow
row available_at = record {
  id = "evt-1";
  type = alert_received;
  run_id = "evt-1";
  incident_id = "inc-1";
  tenant_id = "tenant-1";
  correlation_id = "corr-1";
  causation_id = none;
  payload = [];
  occurred_at = 100;
  available_at = available_at;
  published_at = none;
  attempt_count = 0;
  error_code = none;
}

abbrev run : WorkflowRunRow
run = record {
  run_id = "evt-1";
  incident_id = "inc-1";
  tenant_id = "tenant-1";
  workflow_id = "incident-ingestion-workflow";
  started_at = 150;
  phase10_trace = none;
}

abbrev letter : DeadLetterRow
letter = record {
  id = "dead_evt-1";
  source_outbox_id = "evt-1";
  event_type = alert_received;
  tenant_id = "tenant-1";
  incident_id = "inc-1";
  error_code = "PUBSUB_UNAVAILABLE";
  attempt_count = 3;
  created_at = 180;
  resolved_at = none;
}

abbrev db_of : OutboxRow → List DeadLetterRow → Option WorkflowRunRow → Db
db_of o letters started = record {
  incidents = empty;
  alerts = [];
  timeline_events = [];
  outbox_events = o ∷ [];
  dead_letter_events = letters;
  workflow_runs = λ id. started;
  containment_plans = empty;
  approvals = empty;
  approval_resume_tokens = [];
  containment_actions = [];
  containment_action_attempts = [];
  provider_effect_ledger = [];
  mock_containment_effects = [];
  containment_gateway_audit = [];
}

abbrev waiting : Db
waiting = db_of (row 100) [] none

abbrev leased_until_500 : Db
leased_until_500 = db_of (row 500) [] none

distinct : (o : OutboxRow) → Distinct (o ∷ [])
unfolding Distinct any
distinct o = (refl, tt)

abbrev claim_at : ℕ → ClaimInput
claim_at now = record { now = now; lease_until = 500; limit = 10 }

abbrev seed : String → ℕ
seed id = 40000

abbrev failure : (lease_token max_attempts : ℕ) → FailureInput
failure lease_token max_attempts = record {
  id = "evt-1";
  lease_token = lease_token;
  now = 300;
  error_code = pubsub_unavailable;
  max_attempts = max_attempts;
  backoff_base_ms = 100;
  backoff_cap_ms = 1000;
}

claimed_once : claims (claim_at 200) waiting "evt-1" ≡ true
unfolding claiming
claimed_once = refl

other_token : (failure 400 3).lease_token ≢ (claim_at 200).lease_until
other_token = λ p. ground (arith, p)

stale_lease_example :
    (mark_outbox_published "evt-1" 400 300 (leased_db (claim_at 200) waiting)
      ≡ (false, leased_db (claim_at 200) waiting))
    × (record_outbox_failure seed (failure 400 3) (leased_db (claim_at 200) waiting)
        ≡ (fence_lost, leased_db (claim_at 200) waiting))
stale_lease_example =
    stale_lease seed (claim_at 200) waiting (failure 400 3) 300 (distinct (row 100)) claimed_once
      other_token

claims_disjoint_example : claims (claim_at 499) (leased_db (claim_at 200) waiting) "evt-1" ≡ false
claims_disjoint_example =
    claims_disjoint (claim_at 200) (claim_at 499) waiting "evt-1" (distinct (row 100)) (omega arith)
      claimed_once

claims_sound_example : DueRow 200 waiting "evt-1"
claims_sound_example = claims_sound (claim_at 200) waiting "evt-1" claimed_once

roomy : count_rows (is_claimable 200 waiting) waiting.outbox_events ≤ 10
unfolding claiming count_rows
roomy = omega arith

claims_exact_example : (claims (claim_at 200) waiting "evt-1" ≡ true) ↔ DueRow 200 waiting "evt-1"
claims_exact_example = claims_exact (claim_at 200) waiting "evt-1" roomy

backoff-bounds_example :
    (1 ≤ backoff_with_deterministic_jitter seed "evt-1" 3 100 1000)
    × (4 * backoff_with_deterministic_jitter seed "evt-1" 3 100 1000 ≤ max 4 (5 * 1000))
backoff-bounds_example = backoff-bounds seed "evt-1" 3 100 1000 (omega arith)

held : first_row (is_leased "evt-1" 500) leased_until_500.outbox_events ≡ some (row 500)
unfolding first_row is_leased
held = refl

abbrev retried : Db
retried = (record_outbox_failure seed (failure 500 3) leased_until_500).1

retry_returns : record_outbox_failure seed (failure 500 3) leased_until_500 ≡ (retry, retried)
unfolding record_outbox_failure record_failure_of first_row is_leased update_outbox count_rows
    update_rows
retry_returns = refl

soon : 301 < available_again seed (failure 500 3) 1
unfolding backoff_with_deterministic_jitter jittered
soon = omega arith

retry_waits_example : (0 + 1 < 3) × (claims (claim_at 301) retried "evt-1" ≡ false)
retry_waits_example =
    retry_waits seed (failure 500 3) (claim_at 301) leased_until_500 (distinct (row 500)) held
      retry_returns soon

abbrev given_up : Db
given_up = (record_outbox_failure seed (failure 500 1) leased_until_500).1

gives_up : record_outbox_failure seed (failure 500 1) leased_until_500 ≡ (dead_letter, given_up)
unfolding record_outbox_failure record_failure_of first_row is_leased update_outbox count_rows
    update_rows insert_dead_letter any
gives_up = refl

first_letter : any (λ d. d.id == dead_letter_id "evt-1") leased_until_500.dead_letter_events ≡ false
unfolding any
first_letter = refl

dead_letter_stops_example : (1 ≤ 0 + 1) × (claims (claim_at 900) given_up "evt-1" ≡ false)
dead_letter_stops_example =
    dead_letter_stops seed (failure 500 1) (claim_at 900) leased_until_500 held first_letter
      gives_up

abbrev started : Db
started = db_of (row 500) [] (some run)

failure_with_run_example :
    ((record_outbox_failure seed (failure 500 1) started).0 ≡ workflow_run_exists)
    × ((record_outbox_failure seed (failure 500 1) started).1.dead_letter_events
        ≡ started.dead_letter_events)
    × (claims (claim_at 900) (record_outbox_failure seed (failure 500 1) started).1 "evt-1" ≡ false)
failure_with_run_example =
    failure_with_run seed (failure 500 1) (claim_at 900) started (distinct (row 500)) held refl
