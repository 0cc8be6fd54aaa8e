-- ===== src/Approvals/Issued.antt =====
-- The foreign key of a token holds in every database that a decision leaves.
use template_security_incide.Prelude.{
  String, ◌≡◌, sym, ap, ◌∙◌, subst, ◌⊎◌, inl, inr, true, Option, none, some, [], ◌∷◌, ◌++◌, put,
  put_lem, ◌==◌, nat_eq, string_eq, str_eq_iff, nat_beq_iff, some-injective, Option-cases,
  Bool-cases, ◌∈◌, mem-append, arith,
}
use template_security_incide.Store.Rows.{Db, ApprovalRow, ResumeTokenRow, DecisionColumns}
use template_security_incide.Store.Inversion.{change-elim}
use template_security_incide.Store.Tx.{
  ok, expect-elim, read-elim, throw_if-elim, continue-elim, pure-eq-ok,
}
use template_security_incide.Approvals.Decision.{
  ApprovalDecision, DecisionInput, DecisionDependencies, ResumeToken, decision_eq, decision_beq_iff,
}
use template_security_incide.Approvals.Decide.{
  DecisionBinding, has_decision, insert_token, issue_token, decide_pending, decide_bound,
  decide_approval, is_same_decision, provenance_of,
}
use template_security_incide.Approvals.Decided.{
  Keyed, binding-rows, issue_token-approvals, write_decision-eq-ok,
}
use template_security_incide.Approvals.Bound.{IsBound, TokensBound}
use template_security_incide.Lifecycle.Step.{insert_timeline_and_outbox-Appends}

has_decision-IsBound : (t : ResumeTokenRow) (db : Db) → has_decision t db ≡ true → IsBound db t
unfolding has_decision
has_decision-IsBound t db h = elim (Option-cases (db.approvals t.approval_id)) [
  | inl gone ↦ ground arith
  | inr (a, at) ↦ elim (Option-cases a.decided) [
    | inl open_ ↦ ground arith
    | inr (c, was) ↦ (
      a,
      c,
      at,
      was,
      (decision_beq_iff c.decision t.decision).0 (ground (arith, h, at, was)),
      (nat_beq_iff a.expires_at t.expires_at).0 (ground (arith, h, at, was)),
    )
  ]
]

IsBound-moved :
    (db db' : Db) (t : ResumeTokenRow) → db'.approvals ≡ db.approvals → IsBound db t → IsBound db' t
IsBound-moved db db' t same (a, c, at, was, says, expires) =
    (a, c, ap (λ f. f t.approval_id) same ∙ at, was, says, expires)

-- A token that was bound stays bound where an open approval is decided.
IsBound-decided :
    (db db' : Db) (a : ApprovalRow) (c : DecisionColumns) (t : ResumeTokenRow)
    → db.approvals a.id ≡ some a
    → a.decided ≡ none
    → db'.approvals ≡ put a.id (record a { decided = some c }) db.approvals
    → IsBound db t
    → IsBound db' t
IsBound-decided db db' a c t here open_ written (b, d, at, was, says, expires) =
    elim (Bool-cases (a.id == t.approval_id)) [
      | inl same ↦
          let is_a : b ≡ a =
            some-injective
              (sym at ∙ ap db.approvals (sym ((str_eq_iff a.id t.approval_id).0 same)) ∙ here) in
          let bad : some d ≡ none = sym was ∙ ap (λ (x : ApprovalRow). x.decided) is_a ∙ open_ in cc
      | inr other ↦
          let there : db'.approvals t.approval_id ≡ some b =
            ap (λ f. f t.approval_id) written
            ∙ put_lem a.id (record a { decided = some c }) db.approvals t.approval_id
            ∙ rw other at in
          (b, d, there, was, says, expires)
    ]

-- A token that is bound has been added.
record Issued (db db' : Db) : Type 0 where
  token : ResumeTokenRow
  bound : IsBound db token
  grown : db'.approval_resume_tokens ≡ db.approval_resume_tokens ++ token ∷ []

insert_token-Issued :
    (t : ResumeTokenRow) (db db' : Db) {u : Unit {0}}
    → insert_token t db ≡ ok (u, db')
    → Issued db db'
unfolding insert_token
insert_token-Issued t db db' h =
    let parent : has_decision t db ≡ true = ground arith in
    record { token = t; bound = has_decision-IsBound t db parent; grown = ground arith }

module _ (sha256 : String → String) (fingerprint : ApprovalDecision → String → String) where
  issue_token-tokens :
      (d : ApprovalDecision) (a : ApprovalRow) (print : String) (t : Option ResumeToken)
      (db db' : Db) {u : Unit {0}}
      → issue_token sha256 fingerprint d a print t db ≡ ok (u, db')
      → (db'.approval_resume_tokens ≡ db.approval_resume_tokens) ⊎ Issued db db'
  unfolding issue_token
  issue_token-tokens d a print none db db' h =
      inl (ap (λ (x : Db). x.approval_resume_tokens) (pure-eq-ok tt db h).1)
  issue_token-tokens d a print (some t) db db' h =
      expect-elim _ _ _ _ _ h λ digest digested h1. inr (insert_token-Issued _ db db' h1)

  decide_pending-TokensBound :
      (d : ApprovalDecision) (input : DecisionInput) (deps : DecisionDependencies)
      (b : DecisionBinding) (db db' : Db) (r : ApprovalDecision)
      → db.approvals b.approval.id ≡ some b.approval
      → TokensBound db
      → decide_pending sha256 fingerprint d input deps b db ≡ ok (r, db')
      → TokensBound db'
  unfolding decide_pending
  decide_pending-TokensBound d input deps b db db' r here bound h =
      throw_if-elim _ _ _ _ _ h λ current h1. continue-elim _ _ _ h1 λ u1 d1 wrote h2.
        change-elim _ _ _ _ _ _ _ _ h2 λ old found tenant accepted later h3.
          continue-elim _ _ _ h3 λ u2 d2 issued h4. continue-elim _ _ _ h4 λ u3 d3 sent h5.
            let (open_, is_d1) = write_decision-eq-ok sha256 fingerprint _ _ _ d1 {u = u1} wrote in
            let same2 = issue_token-approvals sha256 fingerprint _ _ _ _ _ d2 {u = u2} issued in
            let is_d3 =
              (insert_timeline_and_outbox-Appends _ d2 {db' = d3} {u = u3} sent).written in
            let is_db' = (pure-eq-ok _ _ h5).1 in
            let tokens_after =
              ap (λ (x : Db). x.approval_resume_tokens) is_db'
              ∙ ap (λ (x : Db). x.approval_resume_tokens) is_d3 in
            let approvals_after =
              ap (λ (x : Db). x.approvals) is_db' ∙ ap (λ (x : Db). x.approvals) is_d3 ∙ same2 in
            let old_tokens = ap (λ (x : Db). x.approval_resume_tokens) is_d1 in
            let keeps : (t : ResumeTokenRow) → t ∈ d1.approval_resume_tokens → IsBound db' t =
              λ t m.
                IsBound-decided db db' b.approval _ t here open_
                  (approvals_after ∙ ap (λ (x : Db). x.approvals) is_d1)
                  (bound t (subst (λ rows. t ∈ rows) old_tokens m)) in
            λ t m. elim (issue_token-tokens _ _ _ _ _ d2 {u = u2} issued) [
              | inl same ↦ keeps t (subst (λ rows. t ∈ rows) (tokens_after ∙ same) m)
              | inr issue ↦
                  elim (mem-append t d1.approval_resume_tokens issue.token
                    (subst (λ rows. t ∈ rows) (tokens_after ∙ issue.grown) m)) [
                      | inl before ↦ keeps t before
                      | inr is_n ↦
                          subst (IsBound db') (sym is_n)
                            (IsBound-moved d1 db' issue.token approvals_after issue.bound)
                    ]
            ]

  decide_bound-TokensBound :
      (d : ApprovalDecision) (input : DecisionInput) (deps : DecisionDependencies)
      (b : DecisionBinding) (db db' : Db) (r : ApprovalDecision)
      → db.approvals b.approval.id ≡ some b.approval
      → TokensBound db
      → decide_bound sha256 fingerprint d input deps b db ≡ ok (r, db')
      → TokensBound db'
  unfolding decide_bound
  decide_bound-TokensBound d input deps b db db' r here bound h =
      elim (Option-cases b.approval.decided) [
        | inl open_ ↦
            decide_pending-TokensBound d input deps b db db' r here bound (ground (arith, h, open_))
        | inr (c, was) ↦ elim (Bool-cases (is_same_decision d (provenance_of input) c)) [
          | inr other ↦ ground arith
          | inl same ↦
              let still : db' ≡ db = ground (arith, h, was, same) in
              subst TokensBound (sym still) bound
        ]
      ]

  -- Where approvals stand under their own keys, a decision that is answered keeps every token at the
  -- decision of its approval.
  pub decide_approval-TokensBound :
      (input : DecisionInput) (deps : DecisionDependencies) (db db' : Db) (r : ApprovalDecision)
      → Keyed db
      → TokensBound db
      → decide_approval sha256 fingerprint input deps db ≡ ok (r, db')
      → TokensBound db'
  unfolding decide_approval
  decide_approval-TokensBound input deps db db' r keyed bound h =
      expect-elim _ _ _ _ _ h λ d parsed h1. read-elim _ _ _ _ h1 λ h2.
        expect-elim _ _ _ _ _ h2 λ b joined h3. throw_if-elim _ _ _ _ _ h3 λ same h4.
          let at = (binding-rows d db b joined).0 in
          decide_bound-TokensBound d input deps b db db' r
            (ap db.approvals (keyed d.approval_id b.approval at) ∙ at) bound h4
