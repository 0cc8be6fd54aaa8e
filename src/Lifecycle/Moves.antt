-- ===== src/Lifecycle/Moves.antt =====
-- Each operation that changes an incident's status is an abstract step.
use template_security_incide.Prelude.{
  ◌≡◌, ◌⊎◌, inl, inr, ◌∙◌, String, Bool, Option, none, some, put, refl, true, not, false, some,
  ◌&&◌, ◌==◌, nat_eq, arith, ap,
}
use template_security_incide.Schemas.Incident.{
  IncidentStatus, status_eq, status_eq_iff, awaiting_approval, containing, failed,
}
use template_security_incide.Domain.IncidentState.{can_transition}
use template_security_incide.Store.Rows.{Db, IncidentRow, ApprovalRow, Decision, DecisionColumns}
use template_security_incide.Store.Tx.{
  expect, ReadsOnly, steps, ok, continue-elim, expect-elim, throw_if-elim, read-elim, pure-eq-ok,
  check-elim,
}
use template_security_incide.Store.Inversion.{update-elim, change-elim}
use template_security_incide.Incidents.Read.{Incident, incident_from_row}
use template_security_incide.Incidents.Transition.{
  TransitionInput, TransitionDependencies, transition_incident,
}
use template_security_incide.Containment.Outcome.{
  OutcomeStatus, OutcomeInput, OutcomeDependencies, incident_status, finish_containment,
}
use template_security_incide.Approvals.Expire.{
  ExpiredApprovalWork, ExpiryDependencies, expire_due, record_expiry,
}
use template_security_incide.Approvals.Decision.{
  ApprovalDecision, DecisionInput, ResumeToken, DecisionDependencies,
}
use template_security_incide.Approvals.Decide.{
  DecisionBinding, decided_status, write_decision, insert_token, issue_token, decide_pending,
}
use template_security_incide.Lifecycle.Step.{
  insert_timeline_and_outbox-Appends, Advances, Advances-of-Appends,
}

incident_from_row-same :
    (row : IncidentRow) (db : Db) {i : Incident} {db' : Db}
    → incident_from_row row db ≡ ok (i, db')
    → db' ≡ db
unfolding incident_from_row expect
incident_from_row-same row db h = ground arith

-- The row that the update met is the row that the transition was checked for.
legal_move :
    (old seen : IncidentRow) (to : IncidentStatus) (a b : Bool)
    → not (can_transition seen.status to) ≡ false
    → (old.status == seen.status && a && b) ≡ true
    → can_transition old.status to ≡ true
legal_move old seen to a b legal accepted = ground (arith, status_eq_iff old.status seen.status)

-- A transition that returns, with a readiness check that writes nothing, is an abstract step of
-- its incident: it goes along an edge of the table, with the next version, sequence and event.
pub transition_incident-Advances :
    (input : TransitionInput) (deps : TransitionDependencies) (db : Db) {db' : Db} {i : Incident}
    → ReadsOnly deps.assert_ready
    → transition_incident input deps db ≡ ok (i, db')
    → Advances input.tenant_id input.incident_id db db'
unfolding transition_incident
transition_incident-Advances input deps db reads h = throw_if-elim _ _ _ _ _ h λ allowed h1.
    throw_if-elim _ _ _ _ _ h1 λ clean h2. check-elim _ _ _ _ h2 reads λ h3.
      read-elim _ _ _ _ h3 λ h4. expect-elim _ _ _ _ _ h4 λ seen current h5.
        throw_if-elim _ _ _ _ _ h5 λ fresh h6. throw_if-elim _ _ _ _ _ h6 λ legal h7.
          change-elim _ _ _ _ _ _ _ _ h7 λ old found tenant accepted later h8.
            continue-elim _ _ _ h8 λ u d sent h9. rw (incident_from_row-same _ _ h9) (
              Advances-of-Appends old _ found tenant later
                (legal_move old seen input.to _ _ legal accepted) (refl, refl, refl) (refl, refl)
                (refl, refl) (insert_timeline_and_outbox-Appends _ _ sent))

end_move :
    (old : IncidentRow) (status : OutcomeStatus) (a b : Bool)
    → (a && old.status == containing && b) ≡ true
    → can_transition old.status (incident_status status) ≡ true
unfolding can_transition
end_move old status a b accepted = ground (arith, status_eq_iff old.status containing)

-- A finished containment is an abstract step of its incident.
pub finish_containment-Advances :
    (input : OutcomeInput) (deps : OutcomeDependencies) (db : Db) {db' : Db} {u : Unit {0}}
    → finish_containment input deps db ≡ ok (u, db')
    → Advances input.tenant_id input.incident_id db db'
unfolding finish_containment
finish_containment-Advances input deps db h =
    change-elim _ _ _ _ _ _ _ _ h λ old found tenant accepted later h1.
      Advances-of-Appends old _ found tenant later (end_move old input.status _ _ accepted)
        (refl, refl, refl) (refl, refl) (refl, refl) (insert_timeline_and_outbox-Appends _ _ h1)

expiry_move :
    (old : IncidentRow) (a b : Bool)
    → (a && old.status == awaiting_approval && b) ≡ true
    → can_transition old.status failed ≡ true
unfolding can_transition
expiry_move old a b accepted = ground (arith, status_eq_iff old.status awaiting_approval)

-- An expiry that answers true is an abstract step; one that answers false has written nothing.
pub expire_due-Advances :
    (input : ExpiredApprovalWork) (deps : ExpiryDependencies) (i : IncidentRow) (db : Db) {db' : Db}
    {b : Bool}
    → expire_due input deps i db ≡ ok (b, db')
    → (b ≡ true) × Advances input.tenant_id input.incident_id db db' ⊎ (b ≡ false) × (db' ≡ db)
unfolding expire_due record_expiry
expire_due-Advances input deps i db h =
    update-elim _ _ _ _ _ _ _ h (λ missed. inr (unfold steps in ground arith))
      λ old found tenant accepted later h1. continue-elim _ _ _ h1 λ u d sent h2.
        let (yes_, same) = pure-eq-ok _ _ h2 in
        inl (
          yes_,
          rw same (
              Advances-of-Appends old _ found tenant later (expiry_move old _ _ accepted)
                (refl, refl, refl) (refl, refl) (refl, refl)
                (insert_timeline_and_outbox-Appends _ _ sent)),
        )

write_decision-same :
    (a : ApprovalRow) (c : DecisionColumns) (db : Db) {db' : Db} {u : Unit {0}}
    → write_decision a c db ≡ ok (u, db')
    → (db'.incidents ≡ db.incidents) × (db'.timeline_events ≡ db.timeline_events)
unfolding write_decision
write_decision-same a c db h = ground arith

module _ (sha256 : String → String) (fingerprint : ApprovalDecision → String → String) where
  issue_token-same :
      (d : ApprovalDecision) (a : ApprovalRow) (print : String) (t : Option ResumeToken) (db : Db)
      {db' : Db} {u : Unit {0}}
      → issue_token sha256 fingerprint d a print t db ≡ ok (u, db')
      → (db'.incidents ≡ db.incidents) × (db'.timeline_events ≡ db.timeline_events)
  unfolding issue_token insert_token steps
  issue_token-same d a print none db h = ground arith
  issue_token-same d a print (some t) db h = ground arith

  decision_move :
      (old : IncidentRow) (d : Decision) (x a b : Bool)
      → (x && old.status == awaiting_approval && a && b) ≡ true
      → can_transition old.status (decided_status d) ≡ true
  unfolding can_transition
  decision_move old d x a b accepted = ground (arith, status_eq_iff old.status awaiting_approval)

  -- A first decision is an abstract step of its incident.
  pub decide_pending-Advances :
      (d : ApprovalDecision) (input : DecisionInput) (deps : DecisionDependencies)
      (b : DecisionBinding) (db : Db) {db' : Db} {r : ApprovalDecision}
      → decide_pending sha256 fingerprint d input deps b db ≡ ok (r, db')
      → Advances d.tenant_id d.incident_id db db'
  unfolding decide_pending
  decide_pending-Advances d input deps b db h = throw_if-elim _ _ _ _ _ h λ current h1.
      continue-elim _ _ _ h1 λ u1 d1 wrote h2.
        change-elim _ _ _ _ _ _ _ _ h2 λ old found tenant accepted later h3.
          continue-elim _ _ _ h3 λ u2 d2 issued h4. continue-elim _ _ _ h4 λ u3 d3 sent h5.
            let (same1, kept1) = write_decision-same _ _ _ wrote in
            let (same2, kept2) = issue_token-same _ _ _ _ _ issued in
            rw (pure-eq-ok _ _ h5).1 (
              Advances-of-Appends old _ (rw (← same1) found) tenant later
                (decision_move old d.decision _ _ _ accepted) (refl, refl, refl)
                (same2 ∙ ap (put d.incident_id _) same1, kept2 ∙ kept1) (refl, refl)
                (insert_timeline_and_outbox-Appends _ _ sent))
