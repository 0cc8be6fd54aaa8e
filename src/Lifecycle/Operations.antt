-- ===== src/Lifecycle/Operations.antt =====
-- The operations with their early returns: each one that returns is an abstract step, or has
-- written nothing.
use template_security_incide.Prelude.{
  ◌≡◌, ◌⊎◌, inl, inr, String, Bool, Option, none, some, true, false, not, ltb, ◌||◌, nat_eq, arith,
  Bool-cases, Option-cases,
}
use template_security_incide.Schemas.Incident.{status_eq}
use template_security_incide.Store.Rows.{Db, IncidentRow, ApprovalRow}
use template_security_incide.Store.Tx.{ok, expect-elim, throw_if-elim, read-elim}
use template_security_incide.Containment.Outcome.{
  OutcomeInput, OutcomeDependencies, record_containment_outcome, already_recorded,
}
use template_security_incide.Approvals.Expire.{
  ExpiredApprovalWork, ExpiryDependencies, expire_bound, expire_pending_approval, is_undecided,
}
use template_security_incide.Approvals.Decision.{
  ApprovalDecision, DecisionInput, DecisionDependencies, parse_decision,
}
use template_security_incide.Approvals.Decide.{DecisionBinding, decide_bound, decide_approval}
use template_security_incide.Lifecycle.Step.{Advances}
use template_security_incide.Lifecycle.Moves.{
  finish_containment-Advances, expire_due-Advances, decide_pending-Advances,
}

-- A recording of an outcome that returns is an abstract step of its incident, or has written
-- nothing.
pub record_containment_outcome-Advances :
    (input : OutcomeInput) (deps : OutcomeDependencies) (db : Db) {db' : Db} {u : Unit {0}}
    → record_containment_outcome input deps db ≡ ok (u, db')
    → Advances input.tenant_id input.incident_id db db' ⊎ (db' ≡ db)
unfolding record_containment_outcome
record_containment_outcome-Advances input deps db h =
    elim (Bool-cases (already_recorded input db)) [
      | inl done ↦ inr (ground arith)
      | inr open_ ↦ inl (finish_containment-Advances input deps db (ground arith))
    ]

-- The same of an expiry that has read its row.
expire_bound-Advances :
    (input : ExpiredApprovalWork) (deps : ExpiryDependencies)
    (row : Option (ApprovalRow × IncidentRow)) (db : Db) {db' : Db} {b : Bool}
    → expire_bound input deps row db ≡ ok (b, db')
    → (b ≡ true) × Advances input.tenant_id input.incident_id db db' ⊎ (b ≡ false) × (db' ≡ db)
unfolding expire_bound
expire_bound-Advances input deps none db h = inr (ground arith)
expire_bound-Advances input deps (some (a, i)) db h =
    elim (Bool-cases (not (is_undecided a) || ltb deps.now a.expires_at)) [
      | inl early ↦ inr (ground arith)
      | inr due ↦ expire_due-Advances input deps i db (ground arith)
    ]

-- An expiry that answers true is an abstract step; one that answers false has written nothing.
pub expire_pending_approval-Advances :
    (input : ExpiredApprovalWork) (deps : ExpiryDependencies) (db : Db) {db' : Db} {b : Bool}
    → expire_pending_approval input deps db ≡ ok (b, db')
    → (b ≡ true) × Advances input.tenant_id input.incident_id db db' ⊎ (b ≡ false) × (db' ≡ db)
unfolding expire_pending_approval
expire_pending_approval-Advances input deps db h =
    read-elim _ _ _ _ h λ h1. expire_bound-Advances input deps _ db h1

module _ (sha256 : String → String) (fingerprint : ApprovalDecision → String → String) where
  decide_bound-Advances :
      (d : ApprovalDecision) (input : DecisionInput) (deps : DecisionDependencies)
      (b : DecisionBinding) (db : Db) {db' : Db} {r : ApprovalDecision}
      → decide_bound sha256 fingerprint d input deps b db ≡ ok (r, db')
      → Advances d.tenant_id d.incident_id db db' ⊎ (db' ≡ db)
  unfolding decide_bound
  decide_bound-Advances d input deps b db {db'} {r} h = elim (Option-cases b.approval.decided) [
    | inl pending ↦
        inl (decide_pending-Advances sha256 fingerprint d input deps b db {r = r} (ground arith))
    | inr (columns, was) ↦ inr (ground arith)
  ]

  -- A decision that is answered has parsed its input, and is an abstract step of that incident,
  -- or a replay that has written nothing.
  pub decide_approval-Advances :
      (input : DecisionInput) (deps : DecisionDependencies) (db : Db) {db' : Db}
      {r : ApprovalDecision}
      → decide_approval sha256 fingerprint input deps db ≡ ok (r, db')
      → (d : ApprovalDecision) × (parse_decision input.decision ≡ some d)
        × (Advances d.tenant_id d.incident_id db db' ⊎ (db' ≡ db))
  unfolding decide_approval
  decide_approval-Advances input deps db h = expect-elim _ _ _ _ _ h λ d parsed h1.
      read-elim _ _ _ _ h1 λ h2. expect-elim _ _ _ _ _ h2 λ b bound h3.
        throw_if-elim _ _ _ _ _ h3
          λ same h4. (d, parsed, decide_bound-Advances d input deps b db h4)
