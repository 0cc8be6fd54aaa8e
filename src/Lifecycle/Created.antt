-- ===== src/Lifecycle/Created.antt =====
-- What a delivery of an alert writes: nothing, or one incident with its alert and its first event.
use template_security_incide.Prelude.{
  ℕ, zero, suc, String, ◌≡◌, refl, sym, ap, ◌∙◌, subst, ◌⊎◌, inl, inr, Bool, true, false, Option,
  none, some, [], ◌∷◌, ◌++◌, any, put, Bool-cases, Option-cases, ltb, ◌&&◌, arith,
}
use template_security_incide.Schemas.Alert.{Alert, parse_alert}
use template_security_incide.Domain.Errors.{DomainError}
use template_security_incide.Store.Rows.{Db, IncidentRow, AlertRow}
use template_security_incide.Store.Tx.{
  Result, ok, err, continue-elim, read-elim, expect-elim, throw_if-elim, pure-eq-ok, expect-eq-ok,
  continue-at, transaction-cases, then_branch, else_branch,
}
use template_security_incide.Incidents.Events.{EventInput}
use template_security_incide.Incidents.Read.{Incident, incident_from_row}
use template_security_incide.Incidents.Create.{
  OperationDependencies, pass, Creation, insert_incident, insert_alert, same_alert_key,
  new_incident, write_incident, after_preflight, ingest, ingest_ordered, create_body, attempt_body,
  after_failure, after_attempt, handled, attempts, begin, create_incident_from_alert_result,
  busy_error, existing_identity,
}
use template_security_incide.Lifecycle.NewIncident.{Reads, IsNew, incident_from_row-Reads}
use template_security_incide.Lifecycle.Step.{Appends, insert_timeline_and_outbox-Appends}

-- The caller has passed no hooks.
pub record NoHooks (deps : OperationDependencies) : Type 0 where
  pub passes : (a : Alert) (id : String) (db : Db) → deps.preflight_alert a id db ≡ ok (pass, db)
  pub enriches_nothing :
      (a : Alert) (id : String) (db : Db) → deps.before_incident_write a id db ≡ ok (none, db)

insert_incident-eq-ok :
    (row : IncidentRow) (db db' : Db) {u : Unit {0}}
    → insert_incident row db ≡ ok (u, db')
    → (db.incidents row.id ≡ none) × (db' ≡ record db { incidents = put row.id row db.incidents })
unfolding insert_incident
insert_incident-eq-ok row db db' h = elim (Option-cases (db.incidents row.id)) [
  | inl gone ↦ (gone, ground arith)
  | inr (old, found) ↦ ground arith
]

insert_alert-eq-ok :
    (r : AlertRow) (db db' : Db) {u : Unit {0}}
    → insert_alert r db ≡ ok (u, db')
    → (any (same_alert_key r.alert) db.alerts ≡ false)
      × (db' ≡ record db { alerts = db.alerts ++ r ∷ [] })
unfolding insert_alert
insert_alert-eq-ok r db db' h = (ground arith, ground arith)

incident_from_row-keeps :
    (row : IncidentRow) (db db' : Db) {i : Incident}
    → incident_from_row row db ≡ ok (i, db')
    → db' ≡ db
unfolding incident_from_row
incident_from_row-keeps row db db' h = (expect-eq-ok _ _ db h).1

module _ (is_ip : String → Bool) (deps : OperationDependencies) where
  new_incident-IsNew :
      (alert : Alert) → IsNew alert deps.incident_id deps.now (new_incident is_ip deps alert)
  new_incident-IsNew alert = record {
    has_id = refl;
    tenant = refl;
    subject = refl;
    kind = refl;
    status = refl;
    severity = refl;
    version = refl;
    timeline_sequence = refl;
    current_plan = refl;
    current_run = refl;
    created_at = refl;
    updated_at = refl;
    closed_at = refl;
  }

  -- The incident is new, and so are the keys of its alert; the event is the first of its timeline,
  -- and the incident that is answered is the new one.
  pub record Created (alert : Alert) (creation : Creation) (db db' : Db) : Type 0 where
    pub fresh : db.incidents deps.incident_id ≡ none
    pub unseen : any (same_alert_key alert) db.alerts ≡ false
    pub event : EventInput
    pub received_type : event.type ≡ "incident.received"
    pub of_tenant : event.tenant_id ≡ alert.tenant_id
    pub of_incident : event.incident_id ≡ deps.incident_id
    pub first : event.sequence ≡ 1
    pub before : Db
    pub incidents :
        before.incidents ≡ put deps.incident_id (new_incident is_ip deps alert) db.incidents
    pub alerts :
        before.alerts ≡ db.alerts ++ record { incident_id = deps.incident_id; alert = alert } ∷ []
    pub timeline : before.timeline_events ≡ db.timeline_events
    pub appended : Appends event before db'
    pub is_new : IsNew alert deps.incident_id deps.now (new_incident is_ip deps alert)
    pub answer : Reads (new_incident is_ip deps alert) creation.incident

  abbrev pub Writes : Alert → Db → Creation → Db → Type 0
  Writes alert db creation db' =
      ((creation.duplicate ≡ true) × (db' ≡ db))
      ⊎ ((creation.duplicate ≡ false) × Created alert creation db db')

  -- The outcome of a delivery: nothing is written, or the incident is created.
  abbrev pub Delivered : Alert → Db → Result Creation × Db → Type 0
  Delivered alert db (result, db') =
      (db' ≡ db)
      ⊎ ((creation : Creation) × (result ≡ ok creation)
          × (creation.duplicate ≡ false)
          × Created alert creation db db')

  module _ (no_hooks : NoHooks deps) where
    write_incident-Created :
        (alert : Alert) (db db' : Db) (creation : Creation)
        → write_incident is_ip deps alert alert db ≡ ok (creation, db')
        → (creation.duplicate ≡ false) × Created alert creation db db'
    unfolding write_incident
    write_incident-Created alert db db' creation h = throw_if-elim _ _ _ _ _ h λ same h1.
        continue-elim _ _ _ h1 λ u d1 inserted h2.
          throw_if-elim _ _ _ _ _
            (continue-at _ _ (no_hooks.enriches_nothing alert deps.incident_id d1) h2)
            λ same_again h3. continue-elim _ _ _ h3 λ u2 d2 stored h4.
              continue-elim _ _ _ h4 λ u3 d3 appended h5.
                continue-elim _ _ _ h5 λ incident d4 parsed h6.
                  let (fresh, is_d1) = insert_incident-eq-ok _ db d1 {u = u} inserted in
                  let (unseen, is_d2) = insert_alert-eq-ok _ d1 d2 {u = u2} stored in
                  let appends =
                    insert_timeline_and_outbox-Appends _ d2 {db' = d3} {u = u3} appended in
                  let is_d4 = incident_from_row-keeps _ d3 d4 {i = incident} parsed in
                  let (is_creation, is_db') = pure-eq-ok _ _ h6 in
                  (
                    ap (λ (c : Creation). c.duplicate) is_creation,
                    record {
                      fresh = fresh;
                      unseen =
                          sym (ap (λ (d : Db). any (same_alert_key alert) d.alerts) is_d1) ∙ unseen;
                      event = _;
                      of_incident = refl;
                      first = refl;
                      received_type = refl;
                      of_tenant = refl;
                      is_new = new_incident-IsNew alert;
                      answer =
                          subst (Reads (new_incident is_ip deps alert))
                            (sym (ap (λ (c : Creation). c.incident) is_creation))
                            (incident_from_row-Reads _ d3 d4 {i = incident} parsed);
                      before = d2;
                      incidents =
                          ap (λ (d : Db). d.incidents) is_d2 ∙ ap (λ (d : Db). d.incidents) is_d1;
                      alerts =
                          ap (λ (d : Db). d.alerts) is_d2
                          ∙ ap
                              (λ (d : Db).
                                d.alerts
                                ++ record { incident_id = deps.incident_id; alert = alert } ∷ [])
                              is_d1;
                      timeline =
                          ap (λ (d : Db). d.timeline_events) is_d2
                          ∙ ap (λ (d : Db). d.timeline_events) is_d1;
                      appended = subst (Appends _ d2) (sym (is_db' ∙ is_d4)) appends;
                    },
                  )

    pub ingest-Created :
        (alert : Alert) (db db' : Db) (creation : Creation)
        → ingest is_ip deps alert db ≡ ok (creation, db')
        → (creation.duplicate ≡ false) × Created alert creation db db'
    unfolding ingest after_preflight
    ingest-Created alert db db' creation h =
        write_incident-Created alert db db' creation
          (continue-at _ _ (no_hooks.passes alert deps.incident_id db) h)

    ingest_ordered-Writes :
        (alert : Alert) (found : Option (AlertRow × IncidentRow)) (db db' : Db)
        (creation : Creation)
        → ingest_ordered is_ip deps alert found db ≡ ok (creation, db')
        → Writes alert db creation db'
    unfolding ingest_ordered
    ingest_ordered-Writes alert (some (r, i)) db db' creation h =
        expect-elim _ _ _ _ _ h λ equivalent same h1. throw_if-elim _ _ _ _ _ h1 λ accepted h2.
          continue-elim _ _ _ h2 λ incident d1 parsed h3.
            let is_d1 = incident_from_row-keeps i db d1 {i = incident} parsed in
            let (is_creation, is_db') = pure-eq-ok _ _ h3 in
            inl (ap (λ (c : Creation). c.duplicate) is_creation, is_db' ∙ is_d1)
    ingest_ordered-Writes alert none db db' creation h =
        read-elim _ _ _ _ h λ h1.
          throw_if-elim _ _ _ _ _ h1 λ newest h2. inr (ingest-Created alert db db' creation h2)

    create_body-Writes :
        (alert : Alert) (db db' : Db) (creation : Creation)
        → create_body is_ip deps alert db ≡ ok (creation, db')
        → Writes alert db creation db'
    unfolding create_body
    create_body-Writes alert db db' creation h = elim (Bool-cases deps.enforce_alert_ordering) [
      | inl ordered ↦
          read-elim _ _ _ _ (then_branch deps.enforce_alert_ordering _ _ db _ ordered h)
            λ h1. ingest_ordered-Writes alert (existing_identity alert db) db db' creation h1
      | inr unordered ↦ inr (
          ingest-Created alert db db' creation
            (else_branch deps.enforce_alert_ordering _ _ db _ unordered h))
    ]

    -- An attempt fails and writes nothing, or returns what its body has written.
    pub attempt_body-cases :
        (alert : Alert) (attempt : ℕ) (db : Db)
        → ((e : DomainError) × (attempt_body is_ip deps alert attempt db ≡ (err e, db)))
          ⊎ ((creation : Creation) × (db' : Db) × (attempt_body is_ip deps alert attempt db
                ≡ (ok creation, db'))
              × Writes alert db creation db')
    unfolding attempt_body
    attempt_body-cases alert attempt db = elim (Bool-cases (deps.busy attempt)) [
      | inl busy ↦ inl (busy_error is_ip deps, rw busy refl)
      | inr free ↦ elim (transaction-cases (create_body is_ip deps alert) db) [
        | inl (e, failed) ↦ inl (e, rw free failed)
        | inr (creation, db', ran, done) ↦
            inr (creation, db', rw free done, create_body-Writes alert db db' creation ran)
      ]
    ]

    after_failure-Delivered :
        (alert : Alert) (attempt : ℕ) (e : DomainError) (found : Result (Option Incident × Db))
        (again : Result Creation × Db) (db : Db)
        → Delivered alert db again
        → Delivered alert db (after_failure is_ip deps attempt e found again db)
    unfolding after_failure
    after_failure-Delivered alert attempt e (ok (some incident, d)) again db ih = inl refl
    after_failure-Delivered alert attempt e (ok (none, d)) again db ih =
        elim (Bool-cases (e.retryable && ltb attempt 2)) [
          | inl retries ↦ rw retries ih
          | inr stops ↦ rw stops (inl refl)
        ]
    after_failure-Delivered alert attempt e (err f) again db ih =
        elim (Bool-cases (f.retryable && ltb attempt 2)) [
          | inl retries ↦ rw retries ih
          | inr stops ↦ rw stops (inl refl)
        ]

    attempts-Delivered :
        (alert : Alert) (left attempt : ℕ) (db : Db)
        → Delivered alert db (attempts is_ip deps alert left attempt db)
    unfolding attempts after_attempt
    attempts-Delivered alert zero attempt db = inl refl
    attempts-Delivered alert (suc left) attempt db = elim (attempt_body-cases alert attempt db) [
      | inl (e, failed) ↦ rw failed (
          after_failure-Delivered alert attempt e (handled is_ip deps alert attempt db)
            (attempts is_ip deps alert left (suc attempt) db) db
            (attempts-Delivered alert left (suc attempt) db))
      | inr (creation, db', returned, writes) ↦ rw returned (elim writes [
        | inl (duplicate, same) ↦ inl same
        | inr (new, created) ↦ inr (creation, refl, new, created)
      ])
    ]

begin-Delivered :
    (is_ip : String → Bool) (deps : OperationDependencies) (alert : Alert) (db : Db)
    → NoHooks deps
    → Delivered is_ip deps alert db (begin is_ip deps alert db)
unfolding begin
begin-Delivered is_ip deps alert db no_hooks =
    elim (Bool-cases (deps.enforce_alert_ordering && deps.busy_select)) [
      | inl busy ↦ rw busy (inl refl)
      | inr free ↦ rw free (attempts-Delivered is_ip deps no_hooks alert 3 0 db)
    ]

-- A delivery without hooks, whatever it answers and however often the store was busy, has written
-- nothing, or it answers the incident that it has created, received and at version 0, with one alert
-- and one first event.
pub create_incident-Delivered :
    (is_ip : String → Bool) (deps : OperationDependencies) (untrusted alert : Alert) (db : Db)
    → NoHooks deps
    → parse_alert is_ip untrusted ≡ some alert
    → Delivered is_ip deps alert db (create_incident_from_alert_result is_ip deps untrusted db)
unfolding create_incident_from_alert_result
create_incident-Delivered is_ip deps untrusted alert db no_hooks parsed =
    rw (parsed, create_incident_from_alert_result) (begin-Delivered is_ip deps alert db no_hooks)
