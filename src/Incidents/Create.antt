-- ===== src/Incidents/Create.antt =====
-- createIncidentFromAlertResult of src/db/incident-operations.ts: an alert becomes an incident, once.
-- `is_ip` stands for zod's test of an address, and the hooks for those that a caller passes.
use template_security_incide.Prelude.{
  ℕ, zero, suc, String, Bool, true, false, not, ◌&&◌, ◌||◌, Option, none, some, [], ◌∷◌, ◌++◌, any,
  first_row, ltb, leb, ◌==◌, nat_eq, string_eq, put, if◌then◌else◌,
}
use template_security_incide.Schemas.Common.{str, code_points}
use template_security_incide.Schemas.Incident.{received}
use template_security_incide.Schemas.Events.{alert_received}
use template_security_incide.Schemas.Alert.{Alert, parse_alert}
use template_security_incide.Domain.Errors.{
  DomainError, conflict, event_out_of_order, validation_failed, storage_unavailable, domain_error,
}
use template_security_incide.Store.Rows.{Db, IncidentRow, AlertRow}
use template_security_incide.Store.Tx.{
  Result, ok, err, Tx, ◌>>=◌, ◌>>◌, pure, throw_if, read, expect, transaction,
}
use template_security_incide.Store.Writes.{incident_at}
use template_security_incide.Store.ContainmentWrites.{is_sized}
use template_security_incide.Incidents.Events.{insert_timeline_and_outbox}
use template_security_incide.Incidents.Read.{Incident, incident_from_row, get_incident}
use template_security_incide.Incidents.Equivalence.{
  alerts_are_equivalent, identity_unchanged, alert_ordering_object, stored_ordering_object,
  same_json,
}

-- What preflightAlert answers: nothing, another alert, or the incident that is there already.
pub data Preflight : Type 0 where
  pass : Preflight
  replaced : Alert → Preflight
  duplicate_of : (incident_id : String) → Preflight

-- A hook that a caller leaves out answers `pass` or `none`. The store may be busy for the SELECT that an
-- ordered ingest begins with, and in an attempt, where the driver reports it before the transaction has
-- run, or before the read that follows it.
pub record OperationDependencies : Type 0 where
  pub now : ℕ
  pub incident_id : String
  pub timeline_id : String
  pub event_id : String
  pub correlation_id : Option String
  pub phase10_trace : Option String
  pub enforce_alert_ordering : Bool
  pub preflight_alert : Alert → String → Tx Preflight
  pub before_incident_write : Alert → String → Tx (Option Alert)
  pub busy_select : Bool
  pub busy : ℕ → Bool
  pub busy_read : ℕ → Bool

pub record Creation : Type 0 where
  pub incident : Incident
  pub duplicate : Bool

-- WHERE source = ? AND source_event_id = ?
unfoldable pub alert_at : Alert → Db → Option AlertRow
unfolding first_row
alert_at alert db =
    first_row
      (λ r. r.alert.source == alert.source && r.alert.source_event_id == alert.source_event_id)
      db.alerts

-- The same, joined with its incident.
unfoldable pub existing_identity : Alert → Db → Option (AlertRow × IncidentRow)
unfolding incident_at
existing_identity alert db = elim (alert_at alert db) [
  | none ↦ none
  | some r ↦ elim (incident_at db r.alert.tenant_id r.incident_id) [
    | none ↦ none
    | some i ↦ some (r, i)
  ]
]

unfoldable pub newer_in_stream : Alert → Db → Bool
unfolding any
newer_in_stream alert db =
    let object = alert_ordering_object alert in
    any
      (λ r.
        r.alert.source == alert.source
        && r.alert.tenant_id == alert.tenant_id
        && (stored_ordering_object r.alert).type == object.type
        && same_json (stored_ordering_object r.alert).id object.id
        && ltb alert.occurred_at r.alert.occurred_at)
      db.alerts

-- INSERT INTO incidents
unfoldable pub insert_incident : IncidentRow → Tx (Unit {0})
insert_incident row db =
    if not (
      is_sized 128 row.id
      && leb 1 (code_points row.tenant_id)
      && leb (code_points row.tenant_id) 128
      && leb 1 (code_points row.subject_id)
      && leb (code_points row.subject_id) 128)
    then err (domain_error storage_unavailable)
    else elim (db.incidents row.id) [
      | some _ ↦ err (domain_error conflict)
      | none ↦ ok (tt, record db { incidents = put row.id row db.incidents })
    ]

-- PRIMARY KEY, UNIQUE(source, source_event_id), UNIQUE(tenant_id, idempotency_key)
abbrev pub same_alert_key : Alert → AlertRow → Bool
same_alert_key a r =
    r.alert.alert_id == a.alert_id
    || (r.alert.source == a.source && r.alert.source_event_id == a.source_event_id)
    || (r.alert.tenant_id == a.tenant_id && r.alert.idempotency_key == a.idempotency_key)

-- INSERT INTO alerts; its incident has been inserted in this transaction.
unfoldable pub insert_alert : AlertRow → Tx (Unit {0})
unfolding any
insert_alert r db =
    if any (same_alert_key r.alert) db.alerts
    then err (domain_error conflict)
    else ok (tt, record db { alerts = db.alerts ++ r ∷ [] })

module _ (is_ip : String → Bool) (deps : OperationDependencies) where
  abbrev pub new_incident : Alert → IncidentRow
  new_incident alert = record {
    id = deps.incident_id;
    tenant_id = alert.tenant_id;
    kind = alert.kind;
    subject_id = alert.subject_id;
    status = received;
    severity = none;
    version = 0;
    timeline_sequence = 1;
    current_plan_id = none;
    current_run_id = none;
    created_at = deps.now;
    updated_at = deps.now;
    closed_at = none;
  }

  unfoldable pub write_incident : Alert → Alert → Tx Creation
  write_incident alert candidate = do
    throw_if (not (identity_unchanged alert candidate)) validation_failed
    insert_incident (new_incident alert)
    enriched ← deps.before_incident_write candidate deps.incident_id
    let persisted : Alert = elim enriched [ none ↦ candidate | some a ↦ a ]
    throw_if (not (identity_unchanged alert persisted)) validation_failed
    insert_alert (record { incident_id = deps.incident_id; alert = persisted })
    insert_timeline_and_outbox (record {
      timeline_id = deps.timeline_id;
      event_id = deps.event_id;
      incident_id = deps.incident_id;
      tenant_id = persisted.tenant_id;
      sequence = 1;
      type = "incident.received";
      event_type = alert_received;
      run_id = deps.incident_id;
      correlation_id = elim deps.correlation_id [ none ↦ persisted.idempotency_key | some id ↦ id ];
      causation_id = some persisted.source_event_id;
      occurred_at = deps.now;
      payload =
          ("alertId", str persisted.alert_id)
          ∷ ("status", str "received")
          ∷ elim deps.phase10_trace [ none ↦ [] | some trace ↦ ("__phase10Trace", str trace) ∷ [] ];
    })
    incident ← incident_from_row (new_incident persisted)
    pure (record { incident = incident; duplicate = false })

  unfoldable pub after_preflight : Alert → Preflight → Tx Creation
  after_preflight alert (duplicate_of id) = do
    found ← read (λ db. incident_at db alert.tenant_id id)
    row ← expect found conflict
    incident ← incident_from_row row
    pure (record { incident = incident; duplicate = true })
  after_preflight alert pass = write_incident alert alert
  after_preflight alert (replaced candidate) = write_incident alert candidate

  unfoldable pub ingest : Alert → Tx Creation
  ingest alert = deps.preflight_alert alert deps.incident_id >>= after_preflight alert

  -- The lookup of an ordered ingest has found the alert, or not.
  unfoldable pub ingest_ordered : Alert → Option (AlertRow × IncidentRow) → Tx Creation
  ingest_ordered alert (some (r, i)) = do
    equivalent ← expect (alerts_are_equivalent is_ip r.alert alert) validation_failed
    throw_if (not equivalent) conflict
    incident ← incident_from_row i
    pure (record { incident = incident; duplicate = true })
  ingest_ordered alert none = do
    newer ← read (newer_in_stream alert)
    throw_if newer event_out_of_order
    ingest alert

  unfoldable pub create_body : Alert → Tx Creation
  create_body alert =
      if deps.enforce_alert_ordering
      then (read (existing_identity alert) >>= ingest_ordered alert)
      else ingest alert

  -- The read of the handler: the incident of an equivalent alert, nothing, or another error.
  unfoldable pub recover : Alert → Tx (Option Incident)
  recover alert db = elim (alert_at alert db) [
    | none ↦ ok (none, db)
    | some r ↦ elim (alerts_are_equivalent is_ip r.alert alert) [
      | none ↦ err (domain_error validation_failed)
      | some false ↦ ok (none, db)
      | some true ↦ (get_incident alert.tenant_id r.incident_id >>= λ i. pure (some i)) db
    ]
  ]

  abbrev pub busy_error : DomainError
  busy_error = record { code = storage_unavailable; retryable = true }

  unfoldable pub handled : Alert → ℕ → Db → Result (Option Incident × Db)
  handled alert attempt db = if deps.busy_read attempt then err busy_error else recover alert db

  unfoldable pub attempt_body : Alert → ℕ → Db → Result Creation × Db
  attempt_body alert attempt db =
      if deps.busy attempt then (err busy_error, db) else transaction (create_body alert) db

  abbrev next_or_throw : DomainError → ℕ → Result Creation × Db → Db → Result Creation × Db
  next_or_throw e attempt again db = if e.retryable && ltb attempt 2 then again else (err e, db)

  -- The handler: `again` is the result of the attempts that are left.
  unfoldable pub after_failure :
      ℕ
      → DomainError
      → Result (Option Incident × Db)
      → Result Creation × Db
      → Db
      → Result Creation × Db
  after_failure attempt e (ok (some incident, _)) again db =
      (ok (record { incident = incident; duplicate = true }), db)
  after_failure attempt e (ok (none, _)) again db = next_or_throw e attempt again db
  after_failure attempt e (err read_error) again db = next_or_throw read_error attempt again db

  unfoldable pub after_attempt :
      Alert → ℕ → Result Creation → Result Creation × Db → (db db' : Db) → Result Creation × Db
  after_attempt alert attempt (ok creation) again db db' = (ok creation, db')
  after_attempt alert attempt (err e) again db db' =
      after_failure attempt e (handled alert attempt db) again db

  -- `left` attempts are left; the loop begins with three.
  unfoldable pub attempts : Alert → (left : ℕ) → (attempt : ℕ) → Db → Result Creation × Db
  attempts alert zero attempt db = (err busy_error, db)
  attempts alert (suc left) attempt db =
      let again = attempts alert left (suc attempt) db in
      let (result, db') = attempt_body alert attempt db in
      after_attempt alert attempt result again db db'

  -- `await store.execute({ sql: "SELECT 1" })` before the attempts
  unfoldable pub begin : Alert → Db → Result Creation × Db
  begin alert db =
      if deps.enforce_alert_ordering && deps.busy_select
      then (err busy_error, db)
      else attempts alert 3 0 db

  unfoldable pub create_incident_from_alert_result : Alert → Db → Result Creation × Db
  create_incident_from_alert_result untrusted db = elim (parse_alert is_ip untrusted) [
    | none ↦ (err (domain_error validation_failed), db)
    | some alert ↦ begin alert db
  ]
