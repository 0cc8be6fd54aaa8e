-- ===== src/Outbox/DeadLetter.antt =====
-- reconcilePublishedAlertsWithoutRun and persistOutboxDeadLetter of src/db/outbox-operations.ts.
-- The hexadecimal SHA-256 of an identifier is the parameter `digest`.
use template_security_incide.Prelude.{
  ℕ, String, Bool, true, false, not, ◌&&◌, none, some, [], ◌∷◌, ◌++◌, any, leb, first_row,
  count_rows, update_rows, ◌==◌, nat_eq, string_eq, option_eq, if◌then◌else◌,
}
use Prim.Native.String.{◌++◌ as join}
use template_security_incide.Schemas.Common.{str}
use template_security_incide.Schemas.Events.{DomainEventType, alert_received}
use template_security_incide.Store.Rows.{Db, OutboxRow}
use template_security_incide.Outbox.Claim.{has_unresolved_outbox_dead_letter}
use template_security_incide.Outbox.Settle.{insert_dead_letter, dead_letter_of}

abbrev pub is_alert : DomainEventType → Bool
is_alert alert_received = true
is_alert _ = false

abbrev pub has_run : Db → String → Bool
has_run db id = elim (db.workflow_runs id) [ none ↦ false | some _ ↦ true ]

abbrev pub published_by : ℕ → OutboxRow → Bool
published_by older_than o = elim o.published_at [ none ↦ false | some at ↦ leb at older_than ]

-- An alert that was published long ago and has neither a run nor a dead letter.
unfoldable pub is_lost : (older_than : ℕ) → Db → OutboxRow → Bool
is_lost older_than db o =
    is_alert o.type
    && published_by older_than o
    && not (has_run db o.id)
    && not (has_unresolved_outbox_dead_letter o.id db)

abbrev pub offered_again : ℕ → OutboxRow → OutboxRow
offered_again now o = record o { published_at = none; available_at = now; error_code = none }

unfoldable pub reconcile_published_alerts_without_run : (now older_than : ℕ) → Db → ℕ × Db
reconcile_published_alerts_without_run now older_than db = (
  count_rows (is_lost older_than db) db.outbox_events,
  record db {
    outbox_events = update_rows (is_lost older_than db) (offered_again now) db.outbox_events;
  },
)

pub record DeadLetterInput : Type 0 where
  pub outbox_id : String
  pub error_code : String
  pub attempt_count : ℕ
  pub created_at : ℕ

pub data PersistOutcome : Type 0 where
  dead_letter workflow_run_exists outbox_missing : PersistOutcome

-- INSERT OR IGNORE INTO outbox_events
unfoldable pub insert_outbox_or_ignore : OutboxRow → Db → Db
insert_outbox_or_ignore o db =
    if any (λ e. e.id == o.id) db.outbox_events
    then db
    else record db { outbox_events = db.outbox_events ++ o ∷ [] }

module _ (digest : String → String) where
  abbrev pub dead_letter_event : DeadLetterInput → OutboxRow → OutboxRow
  dead_letter_event input source = record {
    id = join "dlq_" (digest input.outbox_id);
    type = DomainEventType.dead_letter;
    run_id = source.run_id;
    incident_id = source.incident_id;
    tenant_id = source.tenant_id;
    correlation_id = source.correlation_id;
    causation_id = some input.outbox_id;
    payload = ("sourceEventId", str input.outbox_id) ∷ ("errorCode", str input.error_code) ∷ [];
    occurred_at = input.created_at;
    available_at = input.created_at;
    published_at = none;
    attempt_count = 0;
    error_code = none;
  }

  unfoldable pub persist_outbox_dead_letter : DeadLetterInput → Db → PersistOutcome × Db
  persist_outbox_dead_letter input db =
      elim (first_row (λ o. o.id == input.outbox_id) db.outbox_events) [
        | none ↦ (outbox_missing, db)
        | some source ↦
            if has_run db input.outbox_id
            then (workflow_run_exists, db)
            else (let (inserted, db1) =
                  insert_dead_letter
                    (dead_letter_of source input.error_code input.attempt_count input.created_at)
                    db in
                if inserted
                then (dead_letter, insert_outbox_or_ignore (dead_letter_event input source) db1)
                else if has_unresolved_outbox_dead_letter input.outbox_id db1
                then (dead_letter, db1)
                else (outbox_missing, db1))
      ]
