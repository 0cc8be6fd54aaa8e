-- ===== src/Outbox/Settle.antt =====
-- markOutboxPublished and recordOutboxFailure of src/db/outbox-operations.ts: what becomes of a row
-- that is leased.
use template_security_incide.Prelude.{
  ℕ, ◌+◌, String, Bool, true, false, ◌&&◌, ◌||◌, none, some, [], ◌∷◌, ◌++◌, any, leb, first_row,
  count_rows, update_rows, ◌==◌, nat_eq, string_eq, option_eq, if◌then◌else◌,
}
use Prim.Native.String.{◌++◌ as join}
use template_security_incide.Store.Rows.{Db, OutboxRow, DeadLetterRow}
use template_security_incide.Outbox.Backoff.{backoff_with_deterministic_jitter}

-- WHERE id = ? AND published_at IS NULL AND available_at = ?
unfoldable pub is_leased : (id : String) (lease_token : ℕ) → OutboxRow → Bool
is_leased id lease_token o = o.id == id && o.published_at == none && o.available_at == lease_token

abbrev pub published : ℕ → OutboxRow → OutboxRow
published at o = record o { published_at = some at; error_code = none }

-- An UPDATE outbox_events, and whether it met exactly one row.
unfoldable pub update_outbox : (OutboxRow → Bool) → (OutboxRow → OutboxRow) → Db → Bool × Db
update_outbox where_ set_ db = (
  count_rows where_ db.outbox_events == 1,
  record db { outbox_events = update_rows where_ set_ db.outbox_events },
)

unfoldable pub mark_outbox_published : (id : String) (lease_token published_at : ℕ) → Db → Bool × Db
mark_outbox_published id lease_token published_at =
    update_outbox (is_leased id lease_token) (published published_at)

pub data FailureCode : Type 0 where
  pubsub_unavailable event_invalid : FailureCode

abbrev pub failure_text : FailureCode → String
failure_text pubsub_unavailable = "PUBSUB_UNAVAILABLE"
failure_text event_invalid = "EVENT_INVALID"

pub record FailureInput : Type 0 where
  pub id : String
  pub lease_token : ℕ
  pub now : ℕ
  pub error_code : FailureCode
  pub max_attempts : ℕ
  pub backoff_base_ms : ℕ
  pub backoff_cap_ms : ℕ

pub data FailureOutcome : Type 0 where
  retry dead_letter fence_lost workflow_run_exists : FailureOutcome

abbrev pub failed_once_more : (attempts : ℕ) → FailureCode → OutboxRow → OutboxRow
failed_once_more attempts code o = record o {
  attempt_count = attempts;
  error_code = some (failure_text code);
}

-- INSERT OR IGNORE INTO dead_letter_events: a row with the same primary key stays, and the
-- CHECK(attempt_count > 0) is ignored the same way.
unfoldable pub insert_dead_letter : DeadLetterRow → Db → Bool × Db
insert_dead_letter d db =
    if any (λ e. e.id == d.id) db.dead_letter_events || d.attempt_count == 0
    then (false, db)
    else (true, record db { dead_letter_events = db.dead_letter_events ++ d ∷ [] })

abbrev pub dead_letter_id : String → String
dead_letter_id outbox_id = join "dead_" outbox_id

abbrev pub dead_letter_of :
    OutboxRow → (error_code : String) (attempts created_at : ℕ) → DeadLetterRow
dead_letter_of o error_code attempts created_at = record {
  id = dead_letter_id o.id;
  source_outbox_id = o.id;
  event_type = o.type;
  tenant_id = o.tenant_id;
  incident_id = o.incident_id;
  error_code = error_code;
  attempt_count = attempts;
  created_at = created_at;
  resolved_at = none;
}

module _ (seed_of : String → ℕ) where
  -- The instant from which a row that has failed may be claimed again.
  abbrev pub available_again : FailureInput → (attempts : ℕ) → ℕ
  available_again input attempts =
      input.now
      + backoff_with_deterministic_jitter seed_of input.id attempts input.backoff_base_ms
          input.backoff_cap_ms

  -- The branches behind `fence_lost`, for the row that the SELECT has read.
  unfoldable pub record_failure_of : FailureInput → OutboxRow → Db → FailureOutcome × Db
  record_failure_of input row db = elim (db.workflow_runs input.id) [
    | some _ ↦
        let (one, db1) = mark_outbox_published input.id input.lease_token input.now db in
        (if one then workflow_run_exists else fence_lost, db1)
    | none ↦
        let attempts = row.attempt_count + 1 in
        if leb input.max_attempts attempts
        then (
          dead_letter,
          (insert_dead_letter
              (dead_letter_of row (failure_text input.error_code) attempts input.now)
              (update_outbox (is_leased input.id input.lease_token)
                (failed_once_more attempts input.error_code) db).1).1,
        )
        else (let (one, db1) =
              update_outbox (is_leased input.id input.lease_token)
                (λ o. record (failed_once_more attempts input.error_code o) {
                  available_at = available_again input attempts;
                })
                db in
            (if one then retry else fence_lost, db1))
  ]

  unfoldable pub record_outbox_failure : FailureInput → Db → FailureOutcome × Db
  record_outbox_failure input db =
      elim (first_row (is_leased input.id input.lease_token) db.outbox_events) [
        | none ↦ (fence_lost, db)
        | some row ↦ record_failure_of input row db
      ]
