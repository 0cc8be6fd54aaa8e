-- ===== src/Approvals/Expire.antt =====
-- src/db/approval-expiry-operations.ts: an approval that nobody decided in time fails its incident.
use template_security_incide.Prelude.{
  ℕ, ◌+◌, String, Bool, true, false, not, ◌&&◌, ◌||◌, Option, none, some, [], ◌∷◌, ltb, ◌==◌,
  nat_eq, string_eq, option_eq, if◌then◌else◌,
}
use template_security_incide.Schemas.Common.{str}
use template_security_incide.Schemas.Incident.{awaiting_approval, failed, status_eq}
use template_security_incide.Schemas.Events.{approval_decided}
use template_security_incide.Store.Rows.{Db, IncidentRow, ApprovalRow}
use template_security_incide.Store.Tx.{Tx, ok, ◌>>=◌, ◌>>◌, pure, read}
use template_security_incide.Store.Writes.{incident_at, update_incident}
use template_security_incide.Incidents.Events.{insert_timeline_and_outbox}

pub record ExpiredApprovalWork : Type 0 where
  pub tenant_id : String
  pub incident_id : String
  pub approval_id : String
  pub workflow_run_id : String
  pub correlation_id : String

pub record ExpiryDependencies : Type 0 where
  pub now : ℕ
  pub timeline_id : String
  pub event_id : String

abbrev pub joined : ExpiredApprovalWork → ApprovalRow → IncidentRow → Bool
joined input a i =
    a.tenant_id == input.tenant_id
    && a.incident_id == input.incident_id
    && a.workflow_run_id == input.workflow_run_id
    && i.current_run_id == some a.workflow_run_id

-- SELECT … FROM approvals a JOIN incidents i …
unfoldable pub binding : ExpiredApprovalWork → Db → Option (ApprovalRow × IncidentRow)
unfolding incident_at
binding input db = elim (db.approvals input.approval_id) [
  | none ↦ none
  | some a ↦ elim (incident_at db a.tenant_id a.incident_id) [
    | none ↦ none
    | some i ↦ if joined input a i then some (a, i) else none
  ]
]

abbrev pub is_undecided : ApprovalRow → Bool
is_undecided a = elim a.decided [ none ↦ true | some _ ↦ false ]

abbrev pub expired : ℕ → IncidentRow → IncidentRow
expired now row = record row {
  status = failed;
  version = row.version + 1;
  timeline_sequence = row.timeline_sequence + 1;
  updated_at = now;
}

-- The events of an expiry whose UPDATE has answered a row.
unfoldable pub record_expiry :
    ExpiredApprovalWork → ExpiryDependencies → Option IncidentRow → Tx Bool
record_expiry input deps none = pure false
record_expiry input deps (some incident) = do
  insert_timeline_and_outbox (record {
    timeline_id = deps.timeline_id;
    event_id = deps.event_id;
    incident_id = input.incident_id;
    tenant_id = input.tenant_id;
    sequence = incident.timeline_sequence;
    type = "approval.expired";
    event_type = approval_decided;
    run_id = input.workflow_run_id;
    correlation_id = input.correlation_id;
    causation_id = some input.approval_id;
    occurred_at = deps.now;
    payload = ("approvalId", str input.approval_id) ∷ ("decision", str "expired") ∷ [];
  })
  pure true

-- The write of an expiry that is due.
unfoldable pub expire_due : ExpiredApprovalWork → ExpiryDependencies → IncidentRow → Tx Bool
unfolding record_expiry
expire_due input deps i = do
  updated ←
      update_incident input.tenant_id input.incident_id
        (λ row.
          row.current_run_id == some input.workflow_run_id
          && row.status == awaiting_approval
          && row.version == i.version)
        (expired deps.now)
  record_expiry input deps updated

-- `!row || row.decision !== null || row.expires_at > now`
unfoldable pub expire_bound :
    ExpiredApprovalWork → ExpiryDependencies → Option (ApprovalRow × IncidentRow) → Tx Bool
unfolding expire_due
expire_bound input deps none db = ok (false, db)
expire_bound input deps (some (a, i)) db =
    if not (is_undecided a) || ltb deps.now a.expires_at
    then ok (false, db)
    else expire_due input deps i db

unfoldable pub expire_pending_approval : ExpiredApprovalWork → ExpiryDependencies → Tx Bool
unfolding binding expire_bound
expire_pending_approval input deps = do
  current ← read (binding input)
  expire_bound input deps current
