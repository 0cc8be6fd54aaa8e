-- ===== src/Lifecycle/Examples.antt =====
-- Each operation, run on one incident.
use template_security_incide.Prelude.{
  arith, Bool-cases, str_eq_iff, ◌==◌, inl, inr, put, empty, String, Bool, true, false, none, some,
  ◌≡◌, ◌⊎◌, refl, string_eq,
}
use template_security_incide.Schemas.Common.{long_text, is_sha256}
use template_security_incide.Schemas.Incident.{awaiting_approval, containing, failed}
use template_security_incide.Store.Rows.{Db, approved}
use template_security_incide.Store.Tx.{ok, Result}
use template_security_incide.Incidents.Read.{Incident}
use template_security_incide.Incidents.Transition.{transition_incident}
use template_security_incide.Lifecycle.Step.{Advances}
use template_security_incide.Lifecycle.Moves.{transition_incident-Advances}
use template_security_incide.Lifecycle.Fixtures.{
  plan_hash, db_with, answer_or, db_or, is_ok, returned, no_incident, at_300, to_closed,
  at_300-ReadsOnly, running,
}
use template_security_incide.Lifecycle.Outcomes.{record_containment_outcome_once}
use template_security_incide.Lifecycle.Operations.{
  record_containment_outcome-Advances, expire_pending_approval-Advances, decide_approval-Advances,
}
use template_security_incide.Containment.Outcome.{
  OutcomeInput, OutcomeDependencies, record_containment_outcome, finish_containment,
  already_recorded,
}
use template_security_incide.Containment.Outcome
use template_security_incide.Approvals.Expire.{
  ExpiredApprovalWork, ExpiryDependencies, expire_pending_approval, expire_bound, expire_due,
  record_expiry, binding,
}
use template_security_incide.Approvals.Decision.{
  ApprovalDecision, DecisionInput, DecisionDependencies, parse_decision,
}
use template_security_incide.Approvals.Decide.{
  decision_binding, decide_approval, decide_bound, decide_pending, write_decision, issue_token,
  insert_token,
}
use template_security_incide.Approvals.Decided.{Keyed, First, decisions_agree}

abbrev pub closing : Result (Incident × Db)
closing = transition_incident to_closed at_300 (db_with failed)

pub closing_returns : is_ok closing ≡ true
unfolding running
closing_returns = refl

transition_incident-Advances_example :
    Advances "tenant-1" "inc-1" (db_with failed) (db_or (db_with failed) closing)
transition_incident-Advances_example =
    transition_incident-Advances to_closed at_300 (db_with failed) at_300-ReadsOnly
      (returned no_incident (db_with failed) closing closing_returns)

abbrev outcome_input : OutcomeInput
outcome_input = record {
  tenant_id = "tenant-1";
  incident_id = "inc-1";
  workflow_run_id = "run-1";
  correlation_id = "corr-1";
  approval_id = "approval-1";
  expected_version = 3;
  status = Outcome.contained;
  partial = false;
  completed_count = 2;
  failed_count = 0;
}

abbrev outcome_at_300 : OutcomeDependencies
outcome_at_300 = record { now = 300; timeline_id = "time-2"; event_id = "evt-2" }

abbrev containing_result : Result (Unit {0} × Db)
containing_result = record_containment_outcome outcome_input outcome_at_300 (db_with containing)

containing_returns : is_ok containing_result ≡ true
unfolding running record_containment_outcome finish_containment already_recorded
containing_returns = refl

record_containment_outcome-Advances_example :
    Advances "tenant-1" "inc-1" (db_with containing) (db_or (db_with containing) containing_result)
    ⊎ (db_or (db_with containing) containing_result ≡ db_with containing)
record_containment_outcome-Advances_example =
    record_containment_outcome-Advances outcome_input outcome_at_300 (db_with containing)
      (returned tt (db_with containing) containing_result containing_returns)

abbrev contained_db : Db
contained_db = db_or (db_with containing) containing_result

record_containment_outcome_once_example :
    record_containment_outcome outcome_input outcome_at_300 contained_db ≡ ok (tt, contained_db)
record_containment_outcome_once_example =
    record_containment_outcome_once outcome_input outcome_at_300 outcome_at_300 (db_with containing)
      (returned tt (db_with containing) containing_result containing_returns)

abbrev expired_work : ExpiredApprovalWork
expired_work = record {
  tenant_id = "tenant-1";
  incident_id = "inc-1";
  approval_id = "approval-1";
  workflow_run_id = "run-1";
  correlation_id = "corr-1";
}

abbrev expiry_at_900 : ExpiryDependencies
expiry_at_900 = record { now = 900; timeline_id = "time-2"; event_id = "evt-2" }

abbrev expiring : Result (Bool × Db)
expiring = expire_pending_approval expired_work expiry_at_900 (db_with awaiting_approval)

expiring_returns : is_ok expiring ≡ true
unfolding running expire_pending_approval expire_bound expire_due record_expiry binding
expiring_returns = refl

expire_pending_approval-Advances_example :
    (answer_or false expiring ≡ true)
      × Advances "tenant-1" "inc-1"
          (db_with awaiting_approval)
          (db_or (db_with awaiting_approval) expiring)
    ⊎ (answer_or false expiring ≡ false)
      × (db_or (db_with awaiting_approval) expiring ≡ db_with awaiting_approval)
expire_pending_approval-Advances_example =
    expire_pending_approval-Advances expired_work expiry_at_900 (db_with awaiting_approval)
      (returned false (db_with awaiting_approval) expiring expiring_returns)

abbrev approval : ApprovalDecision
approval = record {
  approval_id = "approval-1";
  plan_id = "plan-1";
  incident_id = "inc-1";
  tenant_id = "tenant-1";
  plan_hash_version = 1;
  plan_hash = plan_hash;
  decision = approved;
  decided_by = "manager-1";
  decided_by_role = "soc_manager";
  decided_at = 300;
  reason = none;
}

abbrev decision_input : DecisionInput
decision_input = record {
  decision = approval;
  expected_incident_version = 3;
  run_id = "run-1";
  correlation_id = "corr-1";
  decision_provenance = none;
}

abbrev decision_at_300 : DecisionDependencies
decision_at_300 = record {
  now = 300;
  timeline_id = "time-2";
  event_id = "evt-2";
  resume_token = none;
}

abbrev same_text : String → String
same_text s = s

abbrev plain_fingerprint : ApprovalDecision → String → String
plain_fingerprint d run_id = plan_hash

abbrev deciding : Result (ApprovalDecision × Db)
deciding =
    decide_approval same_text plain_fingerprint decision_input decision_at_300
      (db_with awaiting_approval)

deciding_returns : is_ok deciding ≡ true
unfolding running decide_approval decide_bound decide_pending write_decision issue_token
    insert_token decision_binding parse_decision long_text is_sha256
deciding_returns = refl

decide_approval-Advances_example :
    (d : ApprovalDecision) × (parse_decision approval ≡ some d)
    × (Advances d.tenant_id d.incident_id
          (db_with awaiting_approval)
          (db_or (db_with awaiting_approval) deciding)
        ⊎ (db_or (db_with awaiting_approval) deciding ≡ db_with awaiting_approval))
decide_approval-Advances_example =
    decide_approval-Advances same_text plain_fingerprint decision_input decision_at_300
      (db_with awaiting_approval)
      (returned approval (db_with awaiting_approval) deciding deciding_returns)

abbrev decided_db : Db
decided_db = db_or (db_with awaiting_approval) deciding

-- The same decision is sent again.
abbrev repeating : Result (ApprovalDecision × Db)
repeating =
    decide_approval same_text plain_fingerprint decision_input
      (record decision_at_300 { now = 400 }) decided_db

repeating_returns : is_ok repeating ≡ true
unfolding running decide_approval decide_bound decide_pending write_decision issue_token
    insert_token decision_binding parse_decision long_text is_sha256
repeating_returns = refl

same_approval :
    (answer_or approval repeating).approval_id ≡ (answer_or approval deciding).approval_id
unfolding running decide_approval decide_bound decide_pending write_decision issue_token
    insert_token decision_binding parse_decision long_text is_sha256
same_approval = refl

keyed : Keyed (db_with awaiting_approval)
unfolding put empty
keyed id a found = elim (Bool-cases ("approval-1" == id)) [
  | inl here ↦ let id_is = (str_eq_iff "approval-1" id).0 here in ground (arith, found, here, id_is)
  | inr other ↦ ground (arith, found, other)
]

decisions_agree_example :
    ((decided_db ≡ db_with awaiting_approval)
      ⊎ First "run-1" 300 (db_with awaiting_approval) (answer_or approval deciding))
    × (db_or decided_db repeating ≡ decided_db)
    × ((answer_or approval repeating).decision ≡ (answer_or approval deciding).decision)
    × ((answer_or approval repeating).decided_by ≡ (answer_or approval deciding).decided_by)
    × ((answer_or approval repeating).decided_by_role
        ≡ (answer_or approval deciding).decided_by_role)
    × ((answer_or approval repeating).reason ≡ (answer_or approval deciding).reason)
    × ((answer_or approval repeating).decided_at ≡ (answer_or approval deciding).decided_at)
decisions_agree_example =
    decisions_agree same_text plain_fingerprint decision_input decision_input decision_at_300
      (record decision_at_300 { now = 400 }) (db_with awaiting_approval) decided_db
      (db_or decided_db repeating) (answer_or approval deciding) (answer_or approval repeating)
      keyed (returned approval (db_with awaiting_approval) deciding deciding_returns)
      (returned approval decided_db repeating repeating_returns) same_approval
