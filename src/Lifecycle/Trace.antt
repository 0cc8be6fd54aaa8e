-- ===== src/Lifecycle/Trace.antt =====
-- The operations as steps of one machine, and what every history of them keeps.
use template_security_incide.Prelude.{Bool, ◌≡◌, ◌⊎◌, inl, inr, ℕ, String, some, arith}
use template_security_incide.Schemas.Incident.{closed}
use template_security_incide.Schemas.Events.{TimelineWrite}
use template_security_incide.Store.Rows.{Db, IncidentRow}
use template_security_incide.Store.Tx.{ok, ReadsOnly}
use template_security_incide.Incidents.Read.{Incident}
use template_security_incide.Incidents.Transition.{
  TransitionInput, TransitionDependencies, transition_incident,
}
use template_security_incide.Incidents.Start.{
  StartInput, StartDependencies, Started, TraceReading, materialize_investigation_start,
}
use template_security_incide.Incidents.Timeline.{AppendInput, append_timeline_event}
use template_security_incide.Containment.Outcome.{
  OutcomeInput, OutcomeDependencies, record_containment_outcome,
}
use template_security_incide.Approvals.Expire.{
  ExpiredApprovalWork, ExpiryDependencies, expire_pending_approval,
}
use template_security_incide.Approvals.Decision.{
  ApprovalDecision, DecisionInput, DecisionDependencies,
}
use template_security_incide.Approvals.Decide.{decide_approval}
use template_security_incide.Lifecycle.Step.{Extends, Advances}
use template_security_incide.Lifecycle.Moves.{transition_incident-Advances}
use template_security_incide.Lifecycle.Operations.{
  record_containment_outcome-Advances, expire_pending_approval-Advances, decide_approval-Advances,
}
use template_security_incide.Lifecycle.Starts.{materialize_investigation_start-Advances}
use template_security_incide.Lifecycle.Appended.{append_timeline_event-Extends}
use template_security_incide.Lifecycle.History.{
  closed_is_final, Allowed, Grows, Grows-refl, Grows-trans, Grows-of-Allowed,
}
use template_security_incide.Lifecycle.Gapless.{Gapless, Extends-Gapless}

-- One step of the abstract machine: some incident goes along an edge or keeps its status, and gets
-- its next event; or nothing is written.
abbrev pub AbstractStep : Db → Db → Type 0
AbstractStep db db' =
    ((tenant_id : String) × (id : String) × Extends Allowed tenant_id id db db') ⊎ (db' ≡ db)

Extends-map :
    {C D : IncidentRow → IncidentRow → Type 0} {tenant_id id : String} {db db' : Db}
    → ((old new : IncidentRow) → C old new → D old new)
    → Extends C tenant_id id db db'
    → Extends D tenant_id id db db'
Extends-map f step = record {
  old = step.old;
  new = step.new;
  entry = step.entry;
  found = step.found;
  of_tenant = step.of_tenant;
  same_tenant = step.same_tenant;
  changes = f _ _ step.changes;
  next_sequence = step.next_sequence;
  later = step.later;
  of_incident = step.of_incident;
  in_sequence = step.in_sequence;
  incidents_written = step.incidents_written;
  timeline_written = step.timeline_written;
}

moving : {tenant_id id : String} {db db' : Db} → Advances tenant_id id db db' → AbstractStep db db'
moving step = inl (_, _, Extends-map (λ _ _. inl) step)

module _ (sha256 : String → String) (fingerprint : ApprovalDecision → String → String)
    (read_trace : String → TraceReading) where
  -- An operation that returned; one that throws is rolled back and is no step.
  pub data Step (db : Db) : Db → Type 0 where
    transition :
        (input : TransitionInput) (deps : TransitionDependencies) {db' : Db} {i : Incident}
        → ReadsOnly deps.assert_ready
        → transition_incident input deps db ≡ ok (i, db')
        → Step db db'
    decision :
        (input : DecisionInput) (deps : DecisionDependencies) {db' : Db} {d : ApprovalDecision}
        → decide_approval sha256 fingerprint input deps db ≡ ok (d, db')
        → Step db db'
    expiry :
        (input : ExpiredApprovalWork) (deps : ExpiryDependencies) {db' : Db} {b : Bool}
        → expire_pending_approval input deps db ≡ ok (b, db')
        → Step db db'
    outcome :
        (input : OutcomeInput) (deps : OutcomeDependencies) {db' : Db} {u : Unit {0}}
        → record_containment_outcome input deps db ≡ ok (u, db')
        → Step db db'
    start :
        (input : StartInput) (deps : StartDependencies) {db' : Db} {r : Started}
        → materialize_investigation_start read_trace input deps db ≡ (ok r, db')
        → Step db db'
    event :
        (input : AppendInput) (timeline_id : String) (occurred_at : ℕ) {db' : Db}
        {e : TimelineWrite}
        → append_timeline_event input timeline_id occurred_at db ≡ ok (e, db')
        → Step db db'

  infixl 4 ◌and_then◌
  -- A history: operations one behind another, in any order and with any inputs.
  pub data History (db : Db) : Db → Type 0 where
    done : History db db
    ◌and_then◌ : {db1 db2 : Db} → History db db1 → Step db1 db2 → History db db2

  -- Every operation that returns is a step of the abstract machine, whatever its input, if the
  -- readiness check of a transition writes nothing: its incident goes along an edge of the
  -- transition table, or keeps status and version, and gets the event with its next sequence
  -- number; or nothing is written.
  pub Step-AbstractStep : {db db' : Db} → Step db db' → AbstractStep db db'
  Step-AbstractStep (transition input deps reads h) =
      moving (transition_incident-Advances input deps _ reads h)
  Step-AbstractStep (decision input deps h) =
      elim (decide_approval-Advances sha256 fingerprint input deps _ h).2 [
        | inl step ↦ moving step
        | inr same ↦ inr same
      ]
  Step-AbstractStep (expiry input deps h) = elim (expire_pending_approval-Advances input deps _ h) [
    | inl (_, step) ↦ moving step
    | inr (_, same) ↦ inr same
  ]
  Step-AbstractStep (outcome input deps h) =
      elim (record_containment_outcome-Advances input deps _ h) [
        | inl step ↦ moving step
        | inr same ↦ inr same
      ]
  Step-AbstractStep (start input deps h) =
      elim (materialize_investigation_start-Advances read_trace input deps _ h) [
        | inl (_, step) ↦ moving step
        | inr (_, same) ↦ inr same
      ]
  Step-AbstractStep (event input id at h) =
      inl (_, _, Extends-map (λ _ _. inr) (append_timeline_event-Extends input id at _ h).2)

  -- From a database in which every incident has a canonical identifier and its events are
  -- numbered 1, 2, … up to its sequence without a gap, every history leads to such a database.
  pub History-Gapless : {db db' : Db} → History db db' → Gapless db → Gapless db'
  History-Gapless done good = good
  History-Gapless (run and_then step) good = elim (Step-AbstractStep step) [
    | inl (_, _, extends) ↦ Extends-Gapless extends (History-Gapless run good)
    | inr same ↦ rw same (History-Gapless run good)
  ]

  -- Over every history an incident stays in its tenant, its version counts the edges its status
  -- has gone along, its sequence and its time do not decrease, and the timeline is only appended
  -- to.
  pub History-Grows : {db db' : Db} → History db db' → Grows db db'
  History-Grows done = Grows-refl _
  History-Grows (run and_then step) = elim (Step-AbstractStep step) [
    | inl (_, _, extends) ↦ Grows-trans (History-Grows run) (Grows-of-Allowed extends)
    | inr same ↦ rw same (History-Grows run)
  ]

  -- An incident that is closed stays closed, with its version, over every history.
  pub History-closed :
      {db db' : Db} {id : String} {row : IncidentRow}
      → History db db'
      → db.incidents id ≡ some row
      → row.status ≡ closed
      → (new : IncidentRow) × (db'.incidents id ≡ some new)
        × (new.status ≡ closed)
        × (new.version ≡ row.version)
  History-closed run found was =
      let (new, now, grown) = (History-Grows run).rows _ _ found in
      let (still, none_) = closed_is_final grown.walk was in
      (new, now, still, omega (arith, grown.version, none_))
