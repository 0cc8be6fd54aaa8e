-- ===== src/Approvals/Decided.antt =====
-- What a decision that is answered has stored, and what it leaves to every later one.
use template_security_incide.Prelude.{
  some-injective, ℕ, ◌≤◌, ◌<◌, String, ◌≡◌, refl, sym, ap, ◌∙◌, subst, ◌⊎◌, inl, inr, true, Option,
  none, some, put, put_lem, put_self, if◌then◌else◌, ◌&&◌, ◌==◌, nat_eq, string_eq, option_eq,
  str_eq_iff, option_beq_iff, Option-cases, Bool-cases, arith,
}
use template_security_incide.Store.Rows.{Db, ApprovalRow, IncidentRow, DecisionColumns}
use template_security_incide.Store.Writes.{incident_at}
use template_security_incide.Store.Inversion.{change-elim}
use template_security_incide.Store.Tx.{
  ok, expect-elim, read-elim, throw_if-elim, continue-elim, pure-eq-ok, steps,
}
use template_security_incide.Approvals.Decision.{
  ApprovalDecision, DecisionInput, DecisionDependencies, ResumeToken, decision_eq, decision_beq_iff,
  provenance_eq,
}
use template_security_incide.Approvals.Decide.{
  DecisionBinding, decision_binding, is_same_decision, is_current, provenance_of, write_decision,
  insert_token, issue_token, decide_pending, decide_bound, decide_approval, is_approval_of,
  is_plan_of,
}
use template_security_incide.Lifecycle.Step.{insert_timeline_and_outbox-Appends}

-- A row stands under its own key.
abbrev pub Keyed : Db → Type 0
Keyed db = (id : String) (a : ApprovalRow) → db.approvals id ≡ some a → a.id ≡ id

-- The columns that say who has decided what, and when.
pub record Says (c : DecisionColumns) (r : ApprovalDecision) : Type 0 where
  pub decision : c.decision ≡ r.decision
  pub decided_by : c.decided_by ≡ r.decided_by
  pub decided_by_role : c.decided_by_role ≡ r.decided_by_role
  pub reason : c.decision_reason ≡ r.reason
  pub decided_at : c.decided_at ≡ r.decided_at

-- The answered decision is the one that the approval has.
abbrev pub Stored : Db → ApprovalDecision → Type 0
Stored db r =
    (a : ApprovalRow) × (c : DecisionColumns) × (db.approvals r.approval_id ≡ some a)
    × (a.decided ≡ some c)
    × Says c r

-- A first decision: on an open approval, after its request and before its deadline, for the current
-- plan and run of its incident.
pub record First (run_id : String) (now : ℕ) (db : Db) (r : ApprovalDecision) : Type 0 where
  pub approval : ApprovalRow
  pub incident : IncidentRow
  pub there : db.approvals r.approval_id ≡ some approval
  pub incident_there : incident_at db r.tenant_id r.incident_id ≡ some incident
  pub open_ : approval.decided ≡ none
  pub requested : approval.requested_at ≤ r.decided_at
  pub not_ahead : r.decided_at ≤ now
  pub in_time : now < approval.expires_at
  pub of_run : approval.workflow_run_id ≡ run_id
  pub current_run : incident.current_run_id ≡ some run_id
  pub current_plan : incident.current_plan_id ≡ some r.plan_id

pub binding-rows :
    (d : ApprovalDecision) (db : Db) (b : DecisionBinding)
    → decision_binding d db ≡ some b
    → (db.approvals d.approval_id ≡ some b.approval)
      × (incident_at db d.tenant_id d.incident_id ≡ some b.incident)
unfolding decision_binding
binding-rows d db b h = elim (Option-cases (db.approvals d.approval_id)) [
  | inl gone ↦ ground arith
  | inr (a, at) ↦ elim (Option-cases (db.containment_plans a.plan_id)) [
    | inl gone ↦ ground arith
    | inr (p, planned) ↦ elim (Option-cases (incident_at db a.tenant_id a.incident_id)) [
      | inl gone ↦ ground arith
      | inr (i, found) ↦ elim (Bool-cases (is_approval_of d a && is_plan_of a p)) [
        | inr other ↦ ground arith
        | inl fits ↦
            let tenant = (str_eq_iff a.tenant_id d.tenant_id).0 (ground (arith, fits)) in
            let of_incident = (str_eq_iff a.incident_id d.incident_id).0 (ground (arith, fits)) in
            let is_b : b ≡ record { approval = a; plan = p; incident = i } = ground arith in
            (
              at ∙ ap (λ (x : DecisionBinding). some x.approval) (sym is_b),
              ap (λ t. incident_at db t d.incident_id) (sym tenant)
                  ∙ ap (incident_at db a.tenant_id) (sym of_incident)
                  ∙ found
                  ∙ ap (λ (x : DecisionBinding). some x.incident) (sym is_b),
            )
      ]
    ]
  ]
]

module _ (sha256 : String → String) (fingerprint : ApprovalDecision → String → String) where
  pub issue_token-approvals :
      (d : ApprovalDecision) (a : ApprovalRow) (print : String) (t : Option ResumeToken)
      (db db' : Db) {u : Unit {0}}
      → issue_token sha256 fingerprint d a print t db ≡ ok (u, db')
      → db'.approvals ≡ db.approvals
  unfolding issue_token insert_token steps
  issue_token-approvals d a print none db db' h = ground arith
  issue_token-approvals d a print (some t) db db' h = ground arith

  pub write_decision-eq-ok :
      (a : ApprovalRow) (c : DecisionColumns) (db db' : Db) {u : Unit {0}}
      → write_decision a c db ≡ ok (u, db')
      → (a.decided ≡ none)
        × (db' ≡ record db { approvals = put a.id (record a { decided = some c }) db.approvals })
  unfolding write_decision
  write_decision-eq-ok a c db db' h = elim (Option-cases a.decided) [
    | inl open_ ↦ (open_, ground arith)
    | inr (was, found) ↦ ground arith
  ]

  -- The write of a first decision.
  record Writes (d : ApprovalDecision) (b : DecisionBinding) (db db' : Db) : Type 0 where
    columns : DecisionColumns
    says : Says columns d
    open_ : b.approval.decided ≡ none
    written :
        db'.approvals
        ≡ put b.approval.id (record b.approval { decided = some columns }) db.approvals

  decide_pending-Writes :
      (d : ApprovalDecision) (input : DecisionInput) (deps : DecisionDependencies)
      (b : DecisionBinding) (db db' : Db) (r : ApprovalDecision)
      → decide_pending sha256 fingerprint d input deps b db ≡ ok (r, db')
      → (r ≡ d) × (is_current d input.run_id deps.now b ≡ true) × Writes d b db db'
  unfolding decide_pending
  decide_pending-Writes d input deps b db db' r h = throw_if-elim _ _ _ _ _ h λ current h1.
      continue-elim _ _ _ h1 λ u1 d1 wrote h2.
        change-elim _ _ _ _ _ _ _ _ h2 λ old found tenant accepted later h3.
          continue-elim _ _ _ h3 λ u2 d2 issued h4. continue-elim _ _ _ h4 λ u3 d3 sent h5.
            let (open_, is_d1) = write_decision-eq-ok _ _ _ d1 {u = u1} wrote in
            let same2 = issue_token-approvals _ _ _ _ _ d2 {u = u2} issued in
            let is_d3 =
              (insert_timeline_and_outbox-Appends _ d2 {db' = d3} {u = u3} sent).written in
            let (is_r, is_db') = pure-eq-ok _ _ h5 in
            (
              is_r,
              ground (arith, current),
              record {
                columns = _;
                says = record {
                  decision = refl;
                  decided_by = refl;
                  decided_by_role = refl;
                  reason = refl;
                  decided_at = refl;
                };
                open_ = open_;
                written =
                    ap (λ (x : Db). x.approvals) is_db'
                    ∙ ap (λ (x : Db). x.approvals) is_d3
                    ∙ same2
                    ∙ ap (λ (x : Db). x.approvals) is_d1;
              },
            )

  -- What an answer tells: the decision is stored, and it was there before, or it is a first one.
  abbrev pub Answers : (run_id : String) (now : ℕ) → Db → ApprovalDecision → Db → Type 0
  Answers run_id now db r db' = Keyed db' × Stored db' r × ((db' ≡ db) ⊎ First run_id now db r)

  Writes-Keyed :
      (d : ApprovalDecision) (b : DecisionBinding) (db db' : Db)
      → Keyed db
      → Writes d b db db'
      → Keyed db'
  Writes-Keyed d b db db' keyed w id a found =
      let new = record b.approval { decided = some w.columns } in
      let at : (if b.approval.id == id then some new else db.approvals id) ≡ some a =
        sym (put_lem b.approval.id new db.approvals id) ∙ sym (ap (λ t. t id) w.written) ∙ found in
      elim (Bool-cases (b.approval.id == id)) [
        | inl here ↦
            let is_new : new ≡ a = ground (arith, at, here) in
            sym (ap (λ (x : ApprovalRow). x.id) is_new) ∙ (str_eq_iff b.approval.id id).0 here
        | inr other ↦ keyed id a (ground (arith, at, other))
      ]

  Writes-Stored :
      (d : ApprovalDecision) (b : DecisionBinding) (db db' : Db)
      → b.approval.id ≡ d.approval_id
      → Writes d b db db'
      → Stored db' d
  Writes-Stored d b db db' is_id w = (
    record b.approval { decided = some w.columns },
    w.columns,
    ap (λ t. t d.approval_id) w.written
        ∙ ap (put b.approval.id _ db.approvals) (sym is_id)
        ∙ put_self b.approval.id _ db.approvals,
    refl,
    w.says,
  )

  pending-Answers :
      (d : ApprovalDecision) (input : DecisionInput) (deps : DecisionDependencies)
      (b : DecisionBinding) (db db' : Db) (r : ApprovalDecision)
      → Keyed db
      → db.approvals d.approval_id ≡ some b.approval
      → incident_at db d.tenant_id d.incident_id ≡ some b.incident
      → decide_pending sha256 fingerprint d input deps b db ≡ ok (r, db')
      → Answers input.run_id deps.now db r db'
  pending-Answers d input deps b db db' r keyed at incident h =
      let (is_r, current, w) = decide_pending-Writes d input deps b db db' r h in
      subst (λ (x : ApprovalDecision). Answers input.run_id deps.now db x db') (sym is_r)
        (
          Writes-Keyed d b db db' keyed w,
          Writes-Stored d b db db' (keyed d.approval_id b.approval at) w,
          inr (record {
            approval = b.approval;
            incident = b.incident;
            there = at;
            incident_there = incident;
            open_ = w.open_;
            requested = ground (arith, current);
            not_ahead = ground (arith, current);
            in_time = ground (arith, current);
            of_run =
                (str_eq_iff b.approval.workflow_run_id input.run_id).0 (ground (arith, current));
            current_run =
                (option_beq_iff b.incident.current_run_id (some input.run_id)).0
                  (ground (arith, current));
            current_plan =
                (option_beq_iff b.incident.current_plan_id (some d.plan_id)).0
                  (ground (arith, current));
          }),
        )

  replay-Says :
      (d : ApprovalDecision) (input : DecisionInput) (c : DecisionColumns)
      → is_same_decision d (provenance_of input) c ≡ true
      → Says c (record d { decided_at = c.decided_at })
  replay-Says d input c same = record {
    decision = (decision_beq_iff c.decision d.decision).0 (ground (arith, same));
    decided_by = (str_eq_iff c.decided_by d.decided_by).0 (ground (arith, same));
    decided_by_role = (str_eq_iff c.decided_by_role d.decided_by_role).0 (ground (arith, same));
    reason = (option_beq_iff c.decision_reason d.reason).0 (ground (arith, same));
    decided_at = refl;
  }

  bound-Answers :
      (d : ApprovalDecision) (input : DecisionInput) (deps : DecisionDependencies)
      (b : DecisionBinding) (db db' : Db) (r : ApprovalDecision)
      → Keyed db
      → db.approvals d.approval_id ≡ some b.approval
      → incident_at db d.tenant_id d.incident_id ≡ some b.incident
      → decide_bound sha256 fingerprint d input deps b db ≡ ok (r, db')
      → Answers input.run_id deps.now db r db'
  unfolding decide_bound
  bound-Answers d input deps b db db' r keyed at incident h =
      elim (Option-cases b.approval.decided) [
        | inl open_ ↦
            pending-Answers d input deps b db db' r keyed at incident (ground (arith, h, open_))
        | inr (c, was) ↦ elim (Bool-cases (is_same_decision d (provenance_of input) c)) [
          | inr other ↦ ground arith
          | inl same ↦
              let is_r : record d { decided_at = c.decided_at } ≡ r =
                ground (arith, h, was, same) in
              let is_db : db' ≡ db = ground (arith, h, was, same) in
              subst (λ (x : ApprovalDecision). Answers input.run_id deps.now db x db') is_r
                (
                  subst Keyed (sym is_db) keyed,
                  (
                    b.approval,
                    c,
                    ap (λ (x : Db). x.approvals d.approval_id) is_db ∙ at,
                    was,
                    replay-Says d input c same,
                  ),
                  inl is_db,
                )
        ]
      ]

  pub decide_approval-Answers :
      (input : DecisionInput) (deps : DecisionDependencies) (db db' : Db) (r : ApprovalDecision)
      → Keyed db
      → decide_approval sha256 fingerprint input deps db ≡ ok (r, db')
      → Answers input.run_id deps.now db r db'
  unfolding decide_approval
  decide_approval-Answers input deps db db' r keyed h = expect-elim _ _ _ _ _ h λ d parsed h1.
      read-elim _ _ _ _ h1 λ h2. expect-elim _ _ _ _ _ h2 λ b bound h3.
        throw_if-elim _ _ _ _ _ h3 λ same h4.
          let (at, incident) = binding-rows d db b bound in
          bound-Answers d input deps b db db' r keyed at incident h4

  -- Where approvals stand under their own keys: a decision that is answered writes nothing, or it is
  -- the first on an open approval, made after the request and before the deadline for the current plan
  -- and run of its incident; and from then on every decision on that approval that is answered is the
  -- same one, by the same person, at the same time and for the same reason, and writes nothing.
  pub decisions_agree :
      (first second : DecisionInput) (deps later : DecisionDependencies) (db db1 db2 : Db)
      (r1 r2 : ApprovalDecision)
      → Keyed db
      → decide_approval sha256 fingerprint first deps db ≡ ok (r1, db1)
      → decide_approval sha256 fingerprint second later db1 ≡ ok (r2, db2)
      → r2.approval_id ≡ r1.approval_id
      → ((db1 ≡ db) ⊎ First first.run_id deps.now db r1)
        × (db2 ≡ db1)
        × (r2.decision ≡ r1.decision)
        × (r2.decided_by ≡ r1.decided_by)
        × (r2.decided_by_role ≡ r1.decided_by_role)
        × (r2.reason ≡ r1.reason)
        × (r2.decided_at ≡ r1.decided_at)
  decisions_agree first second deps later db db1 db2 r1 r2 keyed h1 h2 same =
      let (keyed1, (a, c, at, was, says), made) =
        decide_approval-Answers first deps db db1 r1 keyed h1 in
      let (keyed2, (a2, c2, at2, was2, says2), made2) =
        decide_approval-Answers second later db1 db2 r2 keyed1 h2 in
      elim made2 [
        | inr again ↦
            let is_a : again.approval ≡ a =
              some-injective (sym again.there ∙ ap db1.approvals same ∙ at) in
            let bad : some c ≡ none =
              sym was ∙ sym (ap (λ (x : ApprovalRow). x.decided) is_a) ∙ again.open_ in
            cc
        | inl still ↦
            let is_a : a2 ≡ a = some-injective (
              sym at2
              ∙ ap (λ (x : Db). x.approvals r2.approval_id) still
              ∙ ap db1.approvals same
              ∙ at) in
            let is_c : c2 ≡ c =
              some-injective (sym was2 ∙ ap (λ (x : ApprovalRow). x.decided) is_a ∙ was) in
            (
              made,
              still,
              sym says2.decision ∙ ap (λ (x : DecisionColumns). x.decision) is_c ∙ says.decision,
              sym says2.decided_by
                  ∙ ap (λ (x : DecisionColumns). x.decided_by) is_c
                  ∙ says.decided_by,
              sym says2.decided_by_role
                  ∙ ap (λ (x : DecisionColumns). x.decided_by_role) is_c
                  ∙ says.decided_by_role,
              sym says2.reason ∙ ap (λ (x : DecisionColumns). x.decision_reason) is_c ∙ says.reason,
              sym says2.decided_at
                  ∙ ap (λ (x : DecisionColumns). x.decided_at) is_c
                  ∙ says.decided_at,
            )
      ]
