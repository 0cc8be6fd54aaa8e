-- ===== src/Approvals/Resumption.antt =====
-- A token authorizes only while its decision is the incident's current one, and is consumed once.
use template_security_incide.Prelude.{
  some-injective, ◌∈◌, first_row-member, ℕ, ◌<◌, String, str_eq_iff, option_beq_iff, ◌≡◌, refl, sym,
  ap, ◌∙◌, subst, inl, inr, Bool, true, none, some, List, [], ◌∷◌, first_row, update_rows, ltb,
  nat_eq, string_eq, option_eq, eq_refl, Bool-cases, Option-cases, arith,
}
use template_security_incide.Domain.Errors.{conflict, domain_error}
use template_security_incide.Store.Rows.{
  Db, IncidentRow, ApprovalRow, ResumeTokenRow, Decision, DecisionColumns,
}
use template_security_incide.Store.Writes.{incident_at}
use template_security_incide.Store.Tx.{
  ok, err, continue-elim, expect-elim, read-elim, throw_if-elim, pure-eq-ok, steps,
}
use template_security_incide.Schemas.Incident.{status_eq, status_eq_iff}
use template_security_incide.Approvals.Decide.{decided_status}
use template_security_incide.Approvals.Bound.{TokensBound}
use template_security_incide.Approvals.Token.{digest_resume_token}
use template_security_incide.Approvals.Resume.{
  TokenBinding, TokenRow, AuthoritativeApprovalResult, ResumeReceipt, is_bound, bound_token, joined,
  is_authorized, is_unconsumed, consumed, consume, parse_authoritative, token_row,
  authorize_resume_token, is_consumed, consume_resume_token, is_some,
}

-- The first row that a test meets is the first one after an UPDATE that the test does not read.
first_row-update :
    (p w : ResumeTokenRow → Bool) (f : ResumeTokenRow → ResumeTokenRow) (rows : List ResumeTokenRow)
    (r : ResumeTokenRow)
    → ((x : ResumeTokenRow) → p (f x) ≡ p x)
    → w r ≡ true
    → first_row p rows ≡ some r
    → first_row p (update_rows w f rows) ≡ some (f r)
unfolding first_row update_rows
first_row-update p w f [] r keeps met h = cc
first_row-update p w f (x ∷ rest) r keeps met h = elim (Bool-cases (p x)) [
  | inl here ↦
      let is_r : x ≡ r = ground arith in
      let met_x : w x ≡ true = subst (λ (z : ResumeTokenRow). w z ≡ true) (sym is_r) met in
      let still : p (f x) ≡ true = keeps x ∙ here in
      rw met_x (rw still (ap (λ (z : ResumeTokenRow). some (f z)) is_r))
  | inr other ↦
      let ih = first_row-update p w f rest r keeps met (ground (arith, h, other)) in
      elim (Bool-cases (w x)) [
        | inl meets ↦ rw meets (rw (keeps x ∙ other) ih)
        | inr misses ↦ rw misses (rw other ih)
      ]
]

joined-token :
    (db : Db) (t : ResumeTokenRow) (row : TokenRow) → joined db t ≡ some row → row.token ≡ t
unfolding joined
joined-token db t row h = ground arith

consume-again :
    (now : ℕ) (t : ResumeTokenRow) (db db' : Db) (at : ℕ)
    → t.consumed_at ≡ some at
    → consume now t db ≡ ok (tt, db')
    → db' ≡ db
unfolding consume
consume-again now t db db' at done h = ground (arith, h, done)

consume-first :
    (now : ℕ) (t : ResumeTokenRow) (db db' : Db)
    → t.consumed_at ≡ none
    → consume now t db ≡ ok (tt, db')
    → db' ≡ record db {
      approval_resume_tokens =
          update_rows (is_unconsumed now t) (consumed now) db.approval_resume_tokens;
    }
unfolding consume
consume-first now t db db' fresh h = ground (arith, h, fresh)

module _ (sha256 : String → String) (input : TokenBinding) (now : ℕ) where
  token_row-some :
      (digest : String) (db : Db) (row : TokenRow)
      → token_row sha256 input now digest db ≡ some row
      → (bound_token digest input db ≡ some row.token) × (joined db row.token ≡ some row)
  unfolding token_row
  token_row-some digest db row h = elim (Option-cases (bound_token digest input db)) [
    | inl gone ↦ ground arith
    | inr (t, found) ↦
        let same = joined-token db t row (ground (arith, h, found)) in
        (
          found ∙ ap some (sym same),
          subst (λ (z : ResumeTokenRow). joined db z ≡ some row) (sym same)
              (ground (arith, h, found)),
        )
  ]

  bound-consumed :
      (digest : String) (db : Db) (t : ResumeTokenRow)
      → bound_token digest input db ≡ some t
      → is_some t.consumed_at ≡ true
      → is_consumed sha256 input now digest db ≡ true
  unfolding is_consumed
  bound-consumed digest db t found done = ground (arith, found, done)

  -- After the token has been consumed, its row says so.
  consumed-row :
      (digest : String) (db db' : Db) (t : ResumeTokenRow)
      → bound_token digest input db ≡ some t
      → ltb now t.expires_at ≡ true
      → consume now t db ≡ ok (tt, db')
      → is_consumed sha256 input now digest db' ≡ true
  unfolding bound_token
  consumed-row digest db db' t found live h = elim (Option-cases t.consumed_at) [
    | inr (at, done) ↦
        let there : bound_token digest input db' ≡ some t =
          rw (ap (λ (d : Db). d.approval_resume_tokens) (consume-again now t db db' at done h))
            found in
        bound-consumed digest db' t there (rw done refl)
    | inl fresh ↦
        let met : is_unconsumed now t t ≡ true = ground (arith, eq_refl t.id, fresh, live) in
        let there : bound_token digest input db' ≡ some (consumed now t) =
          rw (ap (λ (d : Db). d.approval_resume_tokens) (consume-first now t db db' fresh h)) (
            first_row-update (is_bound digest input) (is_unconsumed now t) (consumed now)
              db.approval_resume_tokens t (λ x. refl) met found) in
        bound-consumed digest db' (consumed now t) there refl
  ]

  -- The run of an authorization that returned.
  abbrev pub Authorizes : Db → ResumeReceipt → Db → Type 0
  Authorizes db receipt db' =
      (digest : String) × (row : TokenRow) × (digest_resume_token sha256 input.token ≡ some digest)
      × (bound_token digest input db ≡ some row.token)
      × (joined db row.token ≡ some row)
      × (is_authorized input now row ≡ true)
      × (consume now row.token db ≡ ok (tt, db'))
      × (parse_authoritative input row.approval row.token.decision row.decided row.token.expires_at
          ≡ some receipt.authoritative)

  authorize_resume_token-Authorizes :
      (db db' : Db) (receipt : ResumeReceipt)
      → authorize_resume_token sha256 input now db ≡ ok (receipt, db')
      → Authorizes db receipt db'
  unfolding authorize_resume_token
  authorize_resume_token-Authorizes db db' receipt h = expect-elim _ _ _ _ _ h λ digest digested h1.
      read-elim _ _ _ _ h1 λ h2. expect-elim _ _ _ _ _ h2 λ row found h3.
        throw_if-elim _ _ _ _ _ h3 λ authorized h4. continue-elim _ _ _ h4 λ u mid spent h5.
          expect-elim _ _ _ _ _ h5 λ result parsed h6.
            let (is_receipt, is_mid) = pure-eq-ok _ _ h6 in
            (
              digest,
              row,
              digested,
              (token_row-some digest db row found).0,
              (token_row-some digest db row found).1,
              ground (arith, authorized),
              subst (λ (d : Db). consume now row.token db ≡ ok (tt, d)) (sym is_mid) spent,
              parsed ∙ ap some (sym (ap (λ (r : ResumeReceipt). r.authoritative) is_receipt)),
            )

-- A token is consumed once: after an authorization that returned, consuming the same token for the
-- same binding is a conflict, at whatever time.
pub token_consumed_once :
    (sha256 : String → String) (input : TokenBinding) (now later : ℕ) (db db' : Db)
    (receipt : ResumeReceipt)
    → authorize_resume_token sha256 input now db ≡ ok (receipt, db')
    → consume_resume_token sha256 input later db' ≡ err (domain_error conflict)
unfolding consume_resume_token steps is_consumed
token_consumed_once sha256 input now later db db' receipt h =
    let (digest, row, digested, found, joins, authorized, spent, parsed) =
      authorize_resume_token-Authorizes sha256 input now db db' receipt h in
    let live : ltb now row.token.expires_at ≡ true = ground (arith, authorized) in
    let done = consumed-row sha256 input now digest db db' row.token found live spent in
    rw digested (rw done refl)

parse_authoritative-fields :
    (input : TokenBinding) (a : ApprovalRow) (decision : Decision) (d : DecisionColumns)
    (expires_at : ℕ) {r : AuthoritativeApprovalResult}
    → parse_authoritative input a decision d expires_at ≡ some r
    → (r.decision ≡ decision) × (r.expires_at ≡ expires_at)
unfolding parse_authoritative
parse_authoritative-fields input a decision d expires_at h = ground arith

joined-rows :
    (db : Db) (t : ResumeTokenRow) (row : TokenRow)
    → joined db t ≡ some row
    → (db.approvals t.approval_id ≡ some row.approval)
      × (row.approval.decided ≡ some row.decided)
      × (incident_at db t.tenant_id t.incident_id ≡ some row.incident)
unfolding joined
joined-rows db t row h = elim (Option-cases (db.approvals t.approval_id)) [
  | inl gone ↦ ground arith
  | inr (a, at) ↦ elim (Option-cases (incident_at db t.tenant_id t.incident_id)) [
    | inl gone ↦ ground arith
    | inr (i, found) ↦ elim (Option-cases a.decided) [
      | inl undecided ↦ ground arith
      | inr (d, decided) ↦ (ground arith, ground arith, ground arith)
    ]
  ]
]

bound_token-of :
    (digest : String) (input : TokenBinding) (db : Db) (t : ResumeTokenRow)
    → bound_token digest input db ≡ some t
    → is_bound digest input t ≡ true
unfolding bound_token
bound_token-of digest input db t h =
    (first_row-member (is_bound digest input) db.approval_resume_tokens t h).1

bound_token-member :
    (digest : String) (input : TokenBinding) (db : Db) (t : ResumeTokenRow)
    → bound_token digest input db ≡ some t
    → t ∈ db.approval_resume_tokens
unfolding bound_token
bound_token-member digest input db t h =
    (first_row-member (is_bound digest input) db.approval_resume_tokens t h).0

-- The decision that a token resumes with, seen in the database.
abbrev pub CurrentDecision : TokenBinding → (now : ℕ) → Db → AuthoritativeApprovalResult → Type 0
CurrentDecision input now db result =
    (a : ApprovalRow) × (d : DecisionColumns) × (i : IncidentRow) × (db.approvals input.approval_id
      ≡ some a)
    × (a.decided ≡ some d)
    × (d.decision ≡ result.decision)
    × (d.decided_by_role ≡ "soc_manager")
    × (incident_at db input.tenant_id input.incident_id ≡ some i)
    × (i.status ≡ decided_status result.decision)
    × (i.current_run_id ≡ some input.workflow_run_id)
    × (i.current_plan_id ≡ some a.plan_id)
    × (a.expires_at ≡ result.expires_at)
    × (now < result.expires_at)

-- Where each token has the decision of its approval: a token that authorizes does so before its expiry,
-- which is its approval's, and with the decision that a soc_manager has taken on that approval and that
-- the status of the incident is, for the incident's current plan and run.
pub authorized_while_current :
    (sha256 : String → String) (input : TokenBinding) (now : ℕ) (db db' : Db)
    (receipt : ResumeReceipt)
    → TokensBound db
    → authorize_resume_token sha256 input now db ≡ ok (receipt, db')
    → CurrentDecision input now db receipt.authoritative
authorized_while_current sha256 input now db db' receipt bounds h =
    let (digest, row, digested, found, joins, authorized, spent, parsed) =
      authorize_resume_token-Authorizes sha256 input now db db' receipt h in
    let (same_decision, same_expiry) =
      parse_authoritative-fields input row.approval row.token.decision row.decided
        row.token.expires_at {r = receipt.authoritative} parsed in
    let bound = bound_token-of digest input db row.token found in
    let (a, c, has, was, decides, expires) =
      bounds row.token (bound_token-member digest input db row.token found) in
    let (at, decided, incident) = joined-rows db row.token row joins in
    let tenant = (str_eq_iff row.token.tenant_id input.tenant_id).0 (ground (arith, bound)) in
    let in_incident =
      (str_eq_iff row.token.incident_id input.incident_id).0 (ground (arith, bound)) in
    let approval = (str_eq_iff row.token.approval_id input.approval_id).0 (ground (arith, bound)) in
    (
      row.approval,
      row.decided,
      row.incident,
      ap db.approvals (sym approval) ∙ at,
      decided,
      ap (λ (x : DecisionColumns). x.decision)
            (some-injective (
              sym decided
              ∙ sym (ap (λ (x : ApprovalRow). x.decided) (some-injective (sym has ∙ at)))
              ∙ was))
          ∙ decides
          ∙ sym same_decision,
      (str_eq_iff row.decided.decided_by_role "soc_manager").0 (ground (arith, authorized)),
      ap (λ t. incident_at db t input.incident_id) (sym tenant)
          ∙ ap (incident_at db row.token.tenant_id) (sym in_incident)
          ∙ incident,
      (status_eq_iff row.incident.status (decided_status row.token.decision)).0
            (ground (arith, authorized))
          ∙ ap decided_status (sym same_decision),
      (option_beq_iff row.incident.current_run_id (some input.workflow_run_id)).0
          (ground (arith, authorized)),
      (option_beq_iff row.incident.current_plan_id (some row.approval.plan_id)).0
          (ground (arith, authorized)),
      ground (arith, authorized, same_expiry),
      ground (arith, authorized, same_expiry),
    )
