-- ===== src/Lifecycle/Outcomes.antt =====
-- An outcome is recorded once.
use template_security_incide.Prelude.{
  ◌≡◌, ◌∙◌, true, some, put_self, ◌==◌, string_eq, option_eq, nat_eq, str_eq_iff, eq_refl,
  Bool-cases, inl, inr, arith, ap,
}
use template_security_incide.Schemas.Incident.{IncidentStatus, status_eq}
use template_security_incide.Store.Rows.{Db, IncidentRow}
use template_security_incide.Store.Tx.{ok}
use template_security_incide.Store.Writes.{incident_at}
use template_security_incide.Store.Inversion.{change-elim}
use template_security_incide.Containment.Outcome.{
  OutcomeInput, OutcomeDependencies, incident_status, finished, already_recorded,
  finish_containment, record_containment_outcome,
}
use template_security_incide.Lifecycle.Step.{insert_timeline_and_outbox-Appends}

already_recorded-at :
    (input : OutcomeInput) (db : Db) (row : IncidentRow)
    → db.incidents input.incident_id ≡ some row
    → (row.tenant_id == input.tenant_id) ≡ true
    → (row.current_run_id == some input.workflow_run_id) ≡ true
    → (row.status == incident_status input.status) ≡ true
    → already_recorded input db ≡ true
unfolding already_recorded incident_at
already_recorded-at input db row found tenant run status =
    ground (arith, found, tenant, run, status)

finish_containment-recorded :
    (input : OutcomeInput) (deps : OutcomeDependencies) (db : Db) {db' : Db} {u : Unit {0}}
    → finish_containment input deps db ≡ ok (u, db')
    → already_recorded input db' ≡ true
unfolding finish_containment
finish_containment-recorded input deps db {db'} h =
    change-elim _ _ _ _ _ _ _ _ h λ old found tenant accepted later h1.
      let appended = insert_timeline_and_outbox-Appends _ _ h1 in
      already_recorded-at input db' (finished input.status deps.now old)
        (ap (λ (d : Db). d.incidents input.incident_id) appended.written ∙ put_self _ _ _)
        ((str_eq_iff old.tenant_id input.tenant_id).1 tenant) (ground (arith, accepted))
        (eq_refl {A = IncidentStatus} (incident_status input.status))

-- After a recording that returns, the same recording returns again and writes nothing.
pub record_containment_outcome_once :
    (input : OutcomeInput) (deps deps' : OutcomeDependencies) (db : Db) {db' : Db} {u : Unit {0}}
    → record_containment_outcome input deps db ≡ ok (u, db')
    → record_containment_outcome input deps' db' ≡ ok (tt, db')
unfolding record_containment_outcome
record_containment_outcome_once input deps deps' db {db'} {u} h =
    elim (Bool-cases (already_recorded input db)) [
      | inl done ↦ let same : db' ≡ db = ground arith in rw same (ground (arith, done))
      | inr open_ ↦
          let recorded =
            finish_containment-recorded input deps db {db' = db'} {u = u} (ground arith) in
          ground (arith, recorded)
    ]
