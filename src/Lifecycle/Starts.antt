-- ===== src/Lifecycle/Starts.antt =====
-- The start of an investigation is an abstract step, and is made once for an event.
use template_security_incide.Prelude.{
  ◌≡◌, ◌⊎◌, inl, inr, ◌∙◌, String, Option, none, some, put, put_self, refl, true, false, ◌==◌,
  string_eq, eq_refl, arith, ap, any, Bool-cases, Option-cases,
}
use template_security_incide.Schemas.Incident.{status_eq, status_eq_iff, received, investigating}
use template_security_incide.Domain.IncidentState.{can_transition}
use template_security_incide.Store.Rows.{Db, IncidentRow, OutboxRow, WorkflowRunRow}
use template_security_incide.Store.Tx.{
  Result, Result-cases, steps, ok, continue-elim, expect-elim, throw_if-elim, read-elim, pure-eq-ok,
}
use template_security_incide.Store.Inversion.{change-elim}
use template_security_incide.Incidents.Start.{
  StartInput, StartDependencies, Started, TraceReading, phase10_trace, trace_text, insert_run,
  run_of, begin_investigation, start_body, materialize_investigation_start, unresolved,
  is_equivalent_marker,
}
use template_security_incide.Lifecycle.Step.{
  insert_timeline_and_outbox-Appends, Advances, Advances-of-Appends,
}

-- The event has its run already, or waits as a dead letter.
abbrev pub Settled : StartInput → Db → Type 0
Settled input db =
    (any (unresolved input.event_id) db.dead_letter_events ≡ true)
    ⊎ (run : WorkflowRunRow) × (db.workflow_runs input.event_id ≡ some run)
      × (is_equivalent_marker run input ≡ true)

module _ (read_trace : String → TraceReading) where
  phase10_trace-same :
      (source : Option OutboxRow) (db : Db) {db' : Db} {t : Option String}
      → phase10_trace read_trace source db ≡ ok (t, db')
      → db' ≡ db
  unfolding phase10_trace steps
  phase10_trace-same none db h = ground arith
  phase10_trace-same (some source) db h = elim (Option-cases (trace_text source.payload)) [
    | inl absent ↦ ground arith
    | inr (text, found) ↦ ground arith
  ]

  insert_run-same :
      (run : WorkflowRunRow) (db : Db) {db' : Db} {u : Unit {0}}
      → insert_run run db ≡ ok (u, db')
      → (db'.incidents ≡ db.incidents)
        × (db'.timeline_events ≡ db.timeline_events)
        × (db'.workflow_runs ≡ put run.run_id run db.workflow_runs)
  unfolding insert_run
  insert_run-same run db h = ground arith

  start_move :
      (old : IncidentRow)
      → (old.status == received) ≡ true
      → can_transition old.status investigating ≡ true
  unfolding can_transition
  start_move old accepted = ground (arith, status_eq_iff old.status received)

  begin_investigation-Advances :
      (input : StartInput) (deps : StartDependencies) (db : Db) {db' : Db} {r : Started}
      → begin_investigation read_trace input deps db ≡ ok (r, db')
      → (Advances input.tenant_id input.incident_id db db')
        × (r.duplicate ≡ false)
        × (run : WorkflowRunRow) × (db'.workflow_runs ≡ put input.event_id run db.workflow_runs)
        × (is_equivalent_marker run input ≡ true)
  unfolding begin_investigation is_equivalent_marker
  begin_investigation-Advances input deps db h = read-elim _ _ _ _ h λ h1.
      expect-elim _ _ _ _ _ h1 λ seen at h2. throw_if-elim _ _ _ _ _ h2 λ new h3.
        read-elim _ _ _ _ h3 λ h4. continue-elim _ _ _ h4 λ t d1 traced h5.
          continue-elim _ _ _ h5 λ u d2 ran h6.
            change-elim _ _ _ _ _ _ _ _ h6 λ old found tenant accepted later h7.
              continue-elim _ _ _ h7 λ v d3 sent h8.
                let same1 = phase10_trace-same _ _ traced in
                let same2 = insert_run-same _ _ ran in
                let appended = insert_timeline_and_outbox-Appends _ _ sent in
                let (answer, kept) = pure-eq-ok _ _ h8 in
                (
                  rw kept (
                      Advances-of-Appends old _ (rw (← same1, ← same2.0) found) tenant later
                        (start_move old accepted) (refl, refl, refl)
                        (
                          ap (put input.incident_id _)
                              (same2.0 ∙ ap (λ (d : Db). d.incidents) same1),
                          same2.1 ∙ ap (λ (d : Db). d.timeline_events) same1,
                        )
                        (refl, refl) appended),
                  ap (λ (s : Started). s.duplicate) answer,
                  run_of input deps.now t,
                  rw (kept, appended.written)
                      (same2.2
                        ∙ ap
                            (λ (d : Db).
                              put input.event_id (run_of input deps.now t) d.workflow_runs)
                            same1),
                  simp eq_refl,
                )

  -- A start that is returned: a duplicate that has written nothing, or an abstract step.
  start_body-Advances :
      (input : StartInput) (deps : StartDependencies) (db : Db) {db' : Db} {r : Started}
      → start_body read_trace input deps db ≡ ok (r, db')
      → (Settled input db) × (r.duplicate ≡ true) × (db' ≡ db)
        ⊎ (Settled input db')
          × (r.duplicate ≡ false)
          × Advances input.tenant_id input.incident_id db db'
  unfolding start_body
  start_body-Advances input deps db {db'} {r} h =
      elim (Bool-cases (any (unresolved input.event_id) db.dead_letter_events)) [
        | inl dead ↦ inl (inl dead, ground arith, ground arith)
        | inr alive ↦ elim (Option-cases (db.workflow_runs input.event_id)) [
          | inl new ↦
              let (step, first, run, ran, marked) =
                begin_investigation-Advances input deps db {r = r} (ground arith) in
              inr (inr (run, rw ran (put_self _ _ _), marked), first, step)
          | inr (run, there) ↦ elim (Bool-cases (is_equivalent_marker run input)) [
            | inl same ↦ inl (inr (run, there, same), ground arith, ground arith)
            | inr other ↦ ground arith
          ]
        ]
      ]

  -- A settled event is answered as a duplicate, and nothing is written.
  Settled-start :
      (input : StartInput) (deps : StartDependencies) (db : Db)
      → Settled input db
      → materialize_investigation_start read_trace input deps db
        ≡ (ok (record { duplicate = true; run_id = input.event_id }), db)
  unfolding materialize_investigation_start start_body
  Settled-start input deps db (inl dead) = ground arith
  Settled-start input deps db (inr (run, there, same)) =
      elim (Bool-cases (any (unresolved input.event_id) db.dead_letter_events)) [
        | inl dead ↦ ground arith
        | inr alive ↦ ground arith
      ]

  -- A start that is answered: a duplicate that has written nothing, or an abstract step.
  materialize-cases :
      (input : StartInput) (deps : StartDependencies) (db : Db) {db' : Db} {r : Started}
      → materialize_investigation_start read_trace input deps db ≡ (ok r, db')
      → (Settled input db) × (r.duplicate ≡ true) × (db' ≡ db)
        ⊎ (Settled input db')
          × (r.duplicate ≡ false)
          × Advances input.tenant_id input.incident_id db db'
  unfolding materialize_investigation_start
  materialize-cases input deps db {db'} {r} h =
      let outcome : Result (Started × Db) = start_body read_trace input deps db in
      elim (Result-cases outcome) [
        | inl (a, returned) ↦ start_body-Advances input deps db {r = r} (ground arith)
        | inr (e, threw) ↦ elim (Option-cases (db.workflow_runs input.event_id)) [
          | inl missing ↦ ground arith
          | inr (run, there) ↦ elim (Bool-cases (is_equivalent_marker run input)) [
            | inl same ↦ inl (inr (run, there, same), ground arith, ground arith)
            | inr other ↦ ground arith
          ]
        ]
      ]

  -- A start that is answered is a duplicate that has written nothing, or an abstract step that is no duplicate.
  pub materialize_investigation_start-Advances :
      (input : StartInput) (deps : StartDependencies) (db : Db) {db' : Db} {r : Started}
      → materialize_investigation_start read_trace input deps db ≡ (ok r, db')
      → (r.duplicate ≡ false) × Advances input.tenant_id input.incident_id db db'
        ⊎ (r.duplicate ≡ true) × (db' ≡ db)
  materialize_investigation_start-Advances input deps db h =
      elim (materialize-cases input deps db h) [
        | inl (settled, repeated, same) ↦ inr (repeated, same)
        | inr (settled, first, step) ↦ inl (first, step)
      ]

  -- After a start that is answered, every further start of the event with the same input is
  -- answered as a duplicate and writes nothing.
  pub materialize_investigation_start_once :
      (input : StartInput) (deps deps' : StartDependencies) (db : Db) {db' : Db} {r : Started}
      → materialize_investigation_start read_trace input deps db ≡ (ok r, db')
      → materialize_investigation_start read_trace input deps' db'
        ≡ (ok (record { duplicate = true; run_id = input.event_id }), db')
  materialize_investigation_start_once input deps deps' db h =
      elim (materialize-cases input deps db h) [
        | inl (settled, _, same) ↦ rw same (Settled-start input deps' db settled)
        | inr (settled, _, _) ↦ Settled-start input deps' _ settled
      ]
