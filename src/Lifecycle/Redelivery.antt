-- ===== src/Lifecycle/Redelivery.antt =====
-- A second delivery of an alert is a duplicate of the first, and writes nothing.
use template_security_incide.Prelude.{
  String, ◌≡◌, ◌≢◌, refl, ap, ◌∙◌, ◌⊎◌, inl, inr, Bool, true, false, ◌&&◌, some, List, [], ◌∷◌, any,
  first_row, ◌==◌, string_eq, Bool-cases, arith,
}
use template_security_incide.Schemas.Alert.{Alert, parse_alert}
use template_security_incide.Domain.Errors.{DomainError}
use template_security_incide.Store.Rows.{Db, IncidentRow, AlertRow}
use template_security_incide.Store.Tx.{ok, err, transaction, transaction-cases, steps, else_branch}
use template_security_incide.Store.Writes.{incident_at}
use template_security_incide.Incidents.Equivalence.{alerts_are_equivalent}
use template_security_incide.Incidents.Read.{Incident, incident_from_row, get_incident}
use template_security_incide.Incidents.Create.{
  OperationDependencies, Creation, alert_at, same_alert_key, existing_identity, ingest_ordered,
  create_body, recover, handled, attempt_body, after_attempt, after_failure, attempts, busy_error,
  begin, create_incident_from_alert_result,
}
use template_security_incide.Lifecycle.Created.{NoHooks, ingest-Created}

-- An alert that is there is met by the keys of a new one with its source and its event.
seen :
    (alert : Alert) (rows : List AlertRow) (r : AlertRow)
    → first_row
        (λ (x : AlertRow).
          x.alert.source == alert.source && x.alert.source_event_id == alert.source_event_id)
        rows
      ≡ some r
    → any (same_alert_key alert) rows ≡ true
unfolding first_row any
seen alert [] r h = cc
seen alert (x ∷ rest) r h =
    elim (Bool-cases
      (x.alert.source == alert.source && x.alert.source_event_id == alert.source_event_id)) [
        | inl here ↦ ground (arith, here)
        | inr other ↦ let ih = seen alert rest r (ground (arith, h, other)) in ground (arith, ih)
      ]

-- What is known of the alert that is in the database, and of its incident.
pub record Known (is_ip : String → Bool) (alert : Alert) (incident : Incident) (db : Db)
    : Type 0 where
  pub row : AlertRow
  pub incident_row : IncidentRow
  pub found : alert_at alert db ≡ some row
  pub equivalent : alerts_are_equivalent is_ip row.alert alert ≡ some true
  pub same_tenant : row.alert.tenant_id ≡ alert.tenant_id
  pub incident_found : incident_at db alert.tenant_id row.incident_id ≡ some incident_row
  pub readable : incident_from_row incident_row db ≡ ok (incident, db)

module _ (is_ip : String → Bool) (deps : OperationDependencies) (alert : Alert)
    (incident : Incident) (db : Db) (known : Known is_ip alert incident db) where
  abbrev answer : Creation
  answer = record { incident = incident; duplicate = true }

  recovers : recover is_ip deps alert db ≡ ok (some incident, db)
  unfolding recover get_incident steps
  recovers =
      let read_back : get_incident alert.tenant_id known.row.incident_id db ≡ ok (incident, db) =
        ground (arith, known.incident_found, known.readable) in
      ground (arith, known.found, known.equivalent, read_back)

  found-identity : existing_identity alert db ≡ some (known.row, known.incident_row)
  unfolding existing_identity
  found-identity =
      let there : incident_at db known.row.alert.tenant_id known.row.incident_id
          ≡ some known.incident_row =
        ap (λ t. incident_at db t known.row.incident_id) known.same_tenant ∙ known.incident_found in
      ground (arith, known.found, there)

  ordered-answer :
      deps.enforce_alert_ordering ≡ true → create_body is_ip deps alert db ≡ ok (answer, db)
  unfolding create_body ingest_ordered steps
  ordered-answer ordered = ground (arith, ordered, found-identity, known.equivalent, known.readable)

  -- Without ordering the alert's keys are taken, and the body fails.
  unordered-fails :
      NoHooks deps
      → deps.enforce_alert_ordering ≡ false
      → (creation : Creation) (db' : Db) → create_body is_ip deps alert db ≢ ok (creation, db')
  unfolding create_body alert_at
  unordered-fails no_hooks unordered creation db' h =
      let created =
        ingest-Created is_ip deps no_hooks alert db db' creation
          (else_branch deps.enforce_alert_ordering _ _ db _ unordered h) in
      let taken = seen alert db.alerts known.row known.found in let free = created.1.unseen in cc

  first_attempt :
      NoHooks deps
      → ((e : DomainError) × (attempt_body is_ip deps alert 0 db ≡ (err e, db)))
        ⊎ (attempt_body is_ip deps alert 0 db ≡ (ok answer, db))
  unfolding attempt_body transaction
  first_attempt no_hooks = elim (Bool-cases (deps.busy 0)) [
    | inl busy ↦ inl (busy_error is_ip deps, rw busy refl)
    | inr free ↦ elim (Bool-cases deps.enforce_alert_ordering) [
      | inl ordered ↦ inr (rw free (rw (ordered-answer ordered, transaction) refl))
      | inr unordered ↦ elim (transaction-cases (create_body is_ip deps alert) db) [
        | inl (e, failed) ↦ inl (e, rw free failed)
        | inr (creation, db', ran, done) ↦
            elim (unordered-fails no_hooks unordered creation db' ran) [ ]
      ]
    ]
  ]

  redelivered :
      NoHooks deps → deps.busy_read 0 ≡ false → attempts is_ip deps alert 3 0 db ≡ (ok answer, db)
  unfolding attempts after_attempt after_failure handled
  redelivered no_hooks quiet = elim (first_attempt no_hooks) [
    | inr returned ↦ rw returned refl
    | inl (e, failed) ↦ rw failed (rw quiet (rw recovers refl))
  ]

begin-attempts :
    (is_ip : String → Bool) (deps : OperationDependencies) (alert : Alert) (db : Db)
    → (deps.enforce_alert_ordering && deps.busy_select) ≡ false
    → begin is_ip deps alert db ≡ attempts is_ip deps alert 3 0 db
unfolding begin
begin-attempts is_ip deps alert db begun = rw begun refl

-- A delivery without hooks of an alert that an equivalent one has been stored for, under its tenant and
-- with a readable incident, answers that incident as a duplicate and writes nothing: with or without
-- ordering, and if the store was busy for its transaction, but neither for the SELECT that an ordered
-- delivery begins with nor for the read that follows.
pub redelivery_is_duplicate :
    (is_ip : String → Bool) (deps : OperationDependencies) (untrusted alert : Alert)
    (incident : Incident) (db : Db)
    → NoHooks deps
    → (deps.enforce_alert_ordering && deps.busy_select) ≡ false
    → deps.busy_read 0 ≡ false
    → parse_alert is_ip untrusted ≡ some alert
    → Known is_ip alert incident db
    → create_incident_from_alert_result is_ip deps untrusted db
      ≡ (ok (record { incident = incident; duplicate = true }), db)
unfolding create_incident_from_alert_result
redelivery_is_duplicate is_ip deps untrusted alert incident db no_hooks begun quiet parsed known =
    rw (parsed, create_incident_from_alert_result)
      (begin-attempts is_ip deps alert db begun
        ∙ redelivered is_ip deps alert incident db known no_hooks quiet)
