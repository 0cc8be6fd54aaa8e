-- ===== src/Approvals/Decide.antt =====
-- decideApproval of src/db/approval-decision-operations.ts: a decision is written once, moves the
-- incident, and issues the token that resumes the workflow. `fingerprint` stands for
-- decisionFingerprint and `sha256` for the digest of a token, both SHA-256 of node:crypto.
use template_security_incide.Prelude.{
  ℕ, ◌+◌, String, Bool, false, not, ◌&&◌, ◌||◌, Option, none, some, [], ◌∷◌, ◌++◌, any, ltb, leb,
  ◌==◌, nat_eq, string_eq, option_eq, put, if◌then◌else◌,
}
use template_security_incide.Schemas.Common.{str, is_sha256}
use template_security_incide.Schemas.Incident.{IncidentStatus, awaiting_approval, status_eq}
use template_security_incide.Schemas.Events.{approval_decided}
use template_security_incide.Domain.Errors.{
  not_found, conflict, validation_failed, storage_unavailable, domain_error,
}
use template_security_incide.Store.Rows.{
  Db, IncidentRow, PlanRow, ApprovalRow, ResumeTokenRow, Decision, approved, rejected, Provenance,
  mock, DecisionColumns,
}
use template_security_incide.Store.Tx.{Tx, ok, err, ◌>>=◌, ◌>>◌, pure, throw_if, read, expect}
use template_security_incide.Store.Writes.{incident_at, has_incident, update_incident}
use template_security_incide.Store.ContainmentWrites.{is_sized}
use template_security_incide.Incidents.Events.{insert_timeline_and_outbox}
use template_security_incide.Approvals.Decision.{
  ApprovalDecision, DecisionInput, ResumeToken, DecisionDependencies, parse_decision, decision_eq,
  provenance_eq,
}
use template_security_incide.Approvals.Token.{digest_resume_token}

-- The row of the SELECT that joins an approval to its plan and its incident.
pub record DecisionBinding : Type 0 where
  pub approval : ApprovalRow
  pub plan : PlanRow
  pub incident : IncidentRow

abbrev pub is_approval_of : ApprovalDecision → ApprovalRow → Bool
is_approval_of d a =
    a.tenant_id == d.tenant_id && a.incident_id == d.incident_id && a.plan_id == d.plan_id

abbrev pub is_plan_of : ApprovalRow → PlanRow → Bool
is_plan_of a p = p.tenant_id == a.tenant_id && p.incident_id == a.incident_id

unfoldable pub decision_binding : ApprovalDecision → Db → Option DecisionBinding
unfolding incident_at
decision_binding d db = elim (db.approvals d.approval_id) [
  | none ↦ none
  | some a ↦ elim (db.containment_plans a.plan_id) [
    | none ↦ none
    | some p ↦ elim (incident_at db a.tenant_id a.incident_id) [
      | none ↦ none
      | some i ↦
          if is_approval_of d a && is_plan_of a p
          then some (record { approval = a; plan = p; incident = i })
          else none
    ]
  ]
]

abbrev pub hashes_match : ApprovalDecision → DecisionBinding → Bool
hashes_match d b =
    b.approval.plan_hash == d.plan_hash
    && b.approval.plan_hash_version == d.plan_hash_version
    && b.plan.plan_hash == d.plan_hash
    && b.plan.plan_hash_version == d.plan_hash_version

abbrev pub is_same_decision : ApprovalDecision → Provenance → DecisionColumns → Bool
is_same_decision d provenance c =
    c.decision == d.decision
    && c.decided_by == d.decided_by
    && c.decided_by_role == d.decided_by_role
    && c.decision_provenance == provenance
    && c.decision_reason == d.reason

-- The conditions of the third CONFLICT.
abbrev pub is_current : ApprovalDecision → (run_id : String) (now : ℕ) → DecisionBinding → Bool
is_current d run_id now b =
    b.incident.current_plan_id == some d.plan_id
    && b.approval.workflow_run_id == run_id
    && b.incident.current_run_id == some run_id
    && leb b.approval.requested_at d.decided_at
    && leb b.incident.updated_at d.decided_at
    && leb d.decided_at now
    && ltb now b.approval.expires_at

abbrev pub provenance_of : DecisionInput → Provenance
provenance_of input = elim input.decision_provenance [ none ↦ mock | some p ↦ p ]

abbrev pub decided_status : Decision → IncidentStatus
decided_status approved = IncidentStatus.approved
decided_status rejected = IncidentStatus.rejected

abbrev decision_text : Decision → String
decision_text approved = "approved"
decision_text rejected = "rejected"

abbrev pub decided : Decision → ℕ → IncidentRow → IncidentRow
decided decision decided_at row = record row {
  status = decided_status decision;
  version = row.version + 1;
  timeline_sequence = row.timeline_sequence + 1;
  updated_at = decided_at;
}

-- UPDATE approvals SET … WHERE … AND decision IS NULL, with the CHECKs on decided_at and
-- decision_fingerprint. The row is the one that the SELECT has read in this transaction.
unfoldable pub write_decision : ApprovalRow → DecisionColumns → Tx (Unit {0})
write_decision a columns db = elim a.decided [
  | some _ ↦ err (domain_error conflict)
  | none ↦
      if leb a.requested_at columns.decided_at
        && ltb columns.decided_at a.expires_at
        && is_sha256 columns.decision_fingerprint
      then ok (
        tt,
        record db { approvals = put a.id (record a { decided = some columns }) db.approvals },
      )
      else err (domain_error storage_unavailable)
]

-- The unique keys of approval_resume_tokens.
abbrev pub same_token : ResumeTokenRow → ResumeTokenRow → Bool
same_token t r =
    r.id == t.id
    || r.token_digest == t.token_digest
    || (r.tenant_id == t.tenant_id
        && r.incident_id == t.incident_id
        && r.workflow_run_id == t.workflow_run_id
        && r.approval_id == t.approval_id
        && r.decision == t.decision)

-- The foreign keys of a token, to the decision of its approval and to its incident.
unfoldable pub has_decision : ResumeTokenRow → Db → Bool
unfolding incident_at
has_decision t db =
    elim (db.approvals t.approval_id) [
      | none ↦ false
      | some a ↦ elim a.decided [
        | none ↦ false
        | some c ↦
            a.tenant_id == t.tenant_id
            && a.incident_id == t.incident_id
            && a.workflow_run_id == t.workflow_run_id
            && c.decision == t.decision
            && c.decision_fingerprint == t.decision_fingerprint
            && a.expires_at == t.expires_at
      ]
    ]
    && has_incident db t.tenant_id t.incident_id

-- INSERT INTO approval_resume_tokens
unfoldable pub insert_token : ResumeTokenRow → Tx (Unit {0})
unfolding any
insert_token t db =
    if not (
      is_sized 128 t.id
      && is_sha256 t.decision_fingerprint
      && is_sha256 t.token_digest
      && ltb t.issued_at t.expires_at)
    then err (domain_error storage_unavailable)
    else if any (same_token t) db.approval_resume_tokens
    then err (domain_error conflict)
    else if not (has_decision t db)
    then err (domain_error storage_unavailable)
    else ok (tt, record db { approval_resume_tokens = db.approval_resume_tokens ++ t ∷ [] })

module _ (sha256 : String → String) (fingerprint : ApprovalDecision → String → String) where
  unfoldable pub issue_token :
      ApprovalDecision → ApprovalRow → String → Option ResumeToken → Tx (Unit {0})
  unfolding insert_token
  issue_token d a print none = pure tt
  issue_token d a print (some t) = do
    digest ← expect (digest_resume_token sha256 t.token) validation_failed
    insert_token (record {
      id = t.token_id;
      tenant_id = d.tenant_id;
      incident_id = d.incident_id;
      workflow_run_id = t.workflow_run_id;
      approval_id = d.approval_id;
      decision = d.decision;
      decision_fingerprint = print;
      token_digest = digest;
      issued_at = d.decided_at;
      expires_at = a.expires_at;
      consumed_at = none;
      resumed_at = none;
    })

  abbrev pub fingerprint_of : ApprovalDecision → DecisionInput → DecisionDependencies → String
  fingerprint_of d input deps = elim deps.resume_token [
    | none ↦ fingerprint d input.run_id
    | some t ↦ t.decision_fingerprint
  ]

  -- A decision on an approval that has none yet.
  unfoldable pub decide_pending :
      ApprovalDecision
      → DecisionInput
      → DecisionDependencies
      → DecisionBinding
      → Tx ApprovalDecision
  decide_pending d input deps b = do
    throw_if (not (is_current d input.run_id deps.now b)) conflict
    write_decision b.approval (record {
      decision = d.decision;
      decided_by = d.decided_by;
      decided_by_role = d.decided_by_role;
      decision_reason = d.reason;
      decided_at = d.decided_at;
      decision_fingerprint = fingerprint_of d input deps;
      decision_provenance = provenance_of input;
    })
    updated ←
        update_incident d.tenant_id d.incident_id
          (λ row.
            row.current_plan_id == some d.plan_id
            && row.status == awaiting_approval
            && row.version == input.expected_incident_version
            && leb row.updated_at d.decided_at)
          (decided d.decision d.decided_at)
    incident ← expect updated conflict
    issue_token d b.approval (fingerprint_of d input deps) deps.resume_token
    insert_timeline_and_outbox (record {
      timeline_id = deps.timeline_id;
      event_id = deps.event_id;
      incident_id = d.incident_id;
      tenant_id = d.tenant_id;
      sequence = incident.timeline_sequence;
      type = "approval.decided";
      event_type = approval_decided;
      run_id = input.run_id;
      correlation_id = input.correlation_id;
      causation_id = some d.approval_id;
      occurred_at = d.decided_at;
      payload =
          ("approvalId", str d.approval_id)
          ∷ ("decision", str (decision_text d.decision))
          ∷ ("planId", str d.plan_id)
          ∷ [];
    })
    pure d

  -- A repeated decision answers the stored one; a different one is a conflict.
  unfoldable pub decide_bound :
      ApprovalDecision
      → DecisionInput
      → DecisionDependencies
      → DecisionBinding
      → Tx ApprovalDecision
  decide_bound d input deps b db = elim b.approval.decided [
    | none ↦ decide_pending d input deps b db
    | some columns ↦
        if is_same_decision d (provenance_of input) columns
        then ok (record d { decided_at = columns.decided_at }, db)
        else err (domain_error conflict)
  ]

  unfoldable pub decide_approval : DecisionInput → DecisionDependencies → Tx ApprovalDecision
  decide_approval input deps = do
    d ← expect (parse_decision input.decision) validation_failed
    current ← read (decision_binding d)
    b ← expect current not_found
    throw_if (not (hashes_match d b)) conflict
    decide_bound d input deps b
