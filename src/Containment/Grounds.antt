-- ===== src/Containment/Grounds.antt =====
-- The grounds of a grant, in terms of the rows that the claim has found.
use template_security_incide.Prelude.{
  ℕ, suc, ◌+◌, ◌≤◌, ◌<◌, String, ◌≡◌, ◌≢◌, refl, sym, ap, ◌∙◌, subst, ◌⊎◌, inl, inr, Bool, true,
  Option, none, some, List, any, count_rows, first_row, update_rows, ltb, leb, ◌==◌, string_eq,
  str_eq_iff, nat_eq, ◌&&◌, Bool-cases, Option-cases, ◌∈◌, mem-update, mem-updated, any-member,
  count_rows-none, first_row-member, any-update, count_rows-update, if◌then◌else◌, arith,
}
use template_security_incide.Schemas.Containment.{
  ContainmentActionType, executing, completed, verified, uncertain, ExecutionStatus, execution_eq,
  execution_eq_iff, verification_eq, verification_eq_iff, effect_eq, effect_eq_iff, action_type_eq,
}
use template_security_incide.Store.ContainmentRows.{ActionRow, AttemptRow, EffectRow}
use template_security_incide.Store.Rows.{Db}
use template_security_incide.Store.Tx.{ok}
use template_security_incide.Store.ContainmentInversion.{change_attempt-elim, change_action-eq-ok}
use template_security_incide.Containment.Reads.{
  ClaimInput, ClaimDependencies, ActionClaim, granted, replayed, denied, attempts_made,
  verified_attempt, latest_attempt, uncertain_workos, is_claimed_action, claimed_action,
  authorized_action, predecessors_incomplete, recent_attempts,
}
use template_security_incide.Containment.Claim.{claim_containment_action, fence_off, stopped}
use template_security_incide.Containment.Attempts.{newest-none, newest-some}
use template_security_incide.Containment.Steps.{kept, closed, added, Prepared, WithinBudget, Grants}
use template_security_incide.Containment.Claims.{claim-Step}
use template_security_incide.Containment.Live.{of_action_iff}

abbrev attempt_of : ActionClaim → ℕ
attempt_of (granted _ attempt) = attempt
attempt_of (replayed _) = 0
attempt_of (denied _) = 0

-- The action of an attempt has this type.
abbrev is_at : ContainmentActionType → AttemptRow → ActionRow → Bool
is_at action_type a c =
    c.tenant_id == a.tenant_id
    && c.incident_id == a.incident_id
    && c.plan_id == a.plan_id
    && c.action_id == a.action_id
    && c.action_type == action_type

-- An attempt of the tenant within the last minute, at an action of this type.
abbrev pub is_recent :
    (tenant_id : String) (now : ℕ) → ContainmentActionType → List ActionRow → AttemptRow → Bool
is_recent tenant_id now action_type actions a =
    a.tenant_id == tenant_id && leb now (a.started_at + 60000) && any (is_at action_type a) actions

-- Three attempts; or six, where an effect of the action is uncertain.
abbrev pub Budgeted : ClaimInput → Db → ℕ → Type 0
Budgeted input db attempt =
    (attempt ≤ 3)
    ⊎ ((attempt ≤ 6)
        × (e : EffectRow) × (e ∈ db.provider_effect_ledger)
        × (e.idempotency_key ≡ input.idempotency_key)
        × (e.tenant_id ≡ input.tenant_id)
        × (e.plan_id ≡ input.plan_id)
        × (e.action_id ≡ input.action_id)
        × (e.status ≡ uncertain))

pub record GrantedOn (input : ClaimInput) (now : ℕ) (db : Db) (attempt : ℕ) : Type 0 where
  -- It is a new number, and no attempt of the action was verified.
  pub earlier :
      (a : AttemptRow)
      → a ∈ db.containment_action_attempts
      → a.tenant_id ≡ input.tenant_id
      → a.plan_id ≡ input.plan_id
      → a.action_id ≡ input.action_id
      → (a.attempt < attempt) × (a.status ≡ completed → a.verification ≢ verified)
  pub budget : Budgeted input db attempt
  -- The action that is claimed.
  pub current : ActionRow
  pub there : current ∈ db.containment_actions
  pub of_tenant : current.tenant_id ≡ input.tenant_id
  pub of_incident : current.incident_id ≡ input.incident_id
  pub of_plan : current.plan_id ≡ input.plan_id
  pub is_action : current.action_id ≡ input.action_id
  -- Every action before it in its plan has completed.
  pub in_order :
      (c : ActionRow)
      → c ∈ db.containment_actions
      → c.tenant_id ≡ input.tenant_id
      → c.incident_id ≡ input.incident_id
      → c.plan_id ≡ input.plan_id
      → c.ordinal < current.ordinal
      → c.status ≡ completed
  pub within_rate :
      count_rows
        (is_recent input.tenant_id now current.action_type db.containment_actions)
        db.containment_action_attempts
      < input.rate_limit

-- What a release of the newest attempt keeps of an action.
record SameAction (c d : ActionRow) : Type 0 where
  tenant : c.tenant_id ≡ d.tenant_id
  incident : c.incident_id ≡ d.incident_id
  plan : c.plan_id ≡ d.plan_id
  action : c.action_id ≡ d.action_id
  ordinal : c.ordinal ≡ d.ordinal
  action_type : c.action_type ≡ d.action_type
  completes : c.status ≡ completed → d.status ≡ completed

SameAction-refl : (c : ActionRow) → SameAction c c
SameAction-refl c = record {
  tenant = refl;
  incident = refl;
  plan = refl;
  action = refl;
  ordinal = refl;
  action_type = refl;
  completes = λ h. h;
}

module _ (input : ClaimInput) (deps : ClaimDependencies) where
  -- The database of the claim, and the one in which the newest attempt has been released.
  record Keeps (db mid : Db) : Type 0 where
    was :
        (c : ActionRow)
        → c ∈ mid.containment_actions
        → (d : ActionRow) × (d ∈ db.containment_actions) × SameAction c d
    is :
        (d : ActionRow)
        → d ∈ db.containment_actions
        → (c : ActionRow) × (c ∈ mid.containment_actions) × SameAction c d
    recent :
        (t : ContainmentActionType)
        → recent_attempts input deps.now t mid
          ≡ count_rows
              (is_recent input.tenant_id deps.now t db.containment_actions)
              db.containment_action_attempts

  abbrev failed_action : ActionRow → ActionRow
  failed_action c = record c { status = ExecutionStatus.failed }

  failed-SameAction :
      (w : ActionRow → Bool) (d : ActionRow)
      → SameAction (if w d then record d { status = ExecutionStatus.failed } else d) d
  failed-SameAction w d = elim (Bool-cases (w d)) [
    | inl met ↦ rw met (record {
      tenant = refl;
      incident = refl;
      plan = refl;
      action = refl;
      ordinal = refl;
      action_type = refl;
      completes = λ h. cc;
    })
    | inr missed ↦ rw missed (SameAction-refl d)
  ]

  any-failed :
      (q w : ActionRow → Bool) (actions : List ActionRow)
      → ((c : ActionRow) → q (failed_action c) ≡ q c)
      → any q (update_rows w failed_action actions) ≡ any q actions
  any-failed q w actions keeps = any-update q w failed_action actions keeps

  recent-fenced :
      (t : ContainmentActionType) (w : ActionRow → Bool) (p : AttemptRow → Bool)
      (actions : List ActionRow) (attempts : List AttemptRow)
      → count_rows
          (is_recent input.tenant_id deps.now t (update_rows w failed_action actions))
          (update_rows p (stopped input deps) attempts)
        ≡ count_rows (is_recent input.tenant_id deps.now t actions) attempts
  recent-fenced t w p actions attempts =
      count_rows-update _ (is_recent input.tenant_id deps.now t actions) p (stopped input deps)
        attempts (λ a. let same = any-failed (is_at t a) w actions (λ c. refl) in rw same refl)
        (λ a. let same = any-failed (is_at t a) w actions (λ c. refl) in rw same refl)

  -- The action that a release meets.
  abbrev is_stopped : ActionRow → Bool
  is_stopped c = is_claimed_action input c && c.status == executing

  fenced-Keeps :
      (a : AttemptRow) (db mid : Db) → fence_off input deps a db ≡ ok (tt, mid) → Keeps db mid
  unfolding fence_off recent_attempts
  fenced-Keeps a db mid h = change_attempt-elim _ _ _ _ _ h λ h1.
      let same = change_action-eq-ok _ _ _ mid {u = tt} h1 in
      subst (Keeps db) (sym same) (record {
        was = λ c m.
            let (d, there, e) = mem-update c _ _ db.containment_actions m in
            (d, there, rw e (failed-SameAction is_stopped d));
        is = λ d m. (_, mem-updated d _ _ db.containment_actions m, failed-SameAction is_stopped d);
        recent = λ t. recent-fenced t _ _ db.containment_actions db.containment_action_attempts;
      })

  Prepared-Keeps :
      (row : Option AttemptRow) (db mid : Db) → Prepared input deps db row mid → Keeps db mid
  unfolding recent_attempts
  Prepared-Keeps row db mid (inl same) = subst (Keeps db) (sym same) (record {
    was = λ c m. (c, m, SameAction-refl c);
    is = λ c m. (c, m, SameAction-refl c);
    recent = λ t. refl;
  })
  Prepared-Keeps row db mid (inr (a, is_a, fenced)) = fenced-Keeps a db mid fenced

  current-facts :
      (mid : Db) (current : ActionRow)
      → authorized_action input mid ≡ some current
      → (current ∈ mid.containment_actions)
        × (is_claimed_action input current ≡ true)
        × (predecessors_incomplete input current mid ≡ 0)
  unfolding authorized_action claimed_action
  current-facts mid current h =
      elim (Option-cases (first_row (is_claimed_action input) mid.containment_actions)) [
        | inl gone ↦ ground arith
        | inr (c, found) ↦ elim (Bool-cases (ltb 0 (predecessors_incomplete input c mid))) [
          | inl waits ↦ ground arith
          | inr clear ↦
              let is_c : c ≡ current = ground arith in
              let (there, met) = first_row-member _ _ c found in
              subst
                (λ (z : ActionRow).
                  (z ∈ mid.containment_actions)
                  × (is_claimed_action input z ≡ true)
                  × (predecessors_incomplete input z mid ≡ 0))
                is_c (there, met, ground (arith, clear))
        ]
      ]

  predecessor-completed :
      (mid : Db) (current c : ActionRow)
      → predecessors_incomplete input current mid ≡ 0
      → c ∈ mid.containment_actions
      → c.tenant_id ≡ current.tenant_id
      → c.incident_id ≡ current.incident_id
      → c.plan_id ≡ current.plan_id
      → c.ordinal < current.ordinal
      → c.status ≡ completed
  unfolding predecessors_incomplete
  predecessor-completed mid current c none_left there t i p before =
      let passed = count_rows-none _ mid.containment_actions c none_left there in
      let t = (str_eq_iff c.tenant_id current.tenant_id).1 t in
      let i = (str_eq_iff c.incident_id current.incident_id).1 i in
      let p = (str_eq_iff c.plan_id current.plan_id).1 p in
      (execution_eq_iff c.status completed).0 (ground (arith, passed, t, i, p, before))

  earlier-attempts :
      (db : Db) (row : Option AttemptRow) (a : AttemptRow)
      → latest_attempt input db ≡ row
      → verified_attempt input db ≡ none
      → a ∈ db.containment_action_attempts
      → a.tenant_id ≡ input.tenant_id
      → a.plan_id ≡ input.plan_id
      → a.action_id ≡ input.action_id
      → (a.attempt < suc (attempts_made row)) × (a.status ≡ completed → a.verification ≢ verified)
  unfolding latest_attempt verified_attempt
  earlier-attempts db row a latest unverified there t p c =
      let of_a = (of_action_iff input.tenant_id input.plan_id input.action_id a).1 (t, p, c) in
      (
        elim (Option-cases row) [
          | inl gone ↦
              let missed = newest-none _ db.containment_action_attempts a (latest ∙ gone) there in
              cc
          | inr (r, is_r) ↦
              let most =
                (newest-some _ db.containment_action_attempts r (latest ∙ is_r)).2 a there of_a in
              rw is_r (omega (arith, most))
        ],
        λ done checked.
            let missed = newest-none _ db.containment_action_attempts a unverified there in
            let done = (execution_eq_iff a.status completed).1 done in
            let checked = (verification_eq_iff a.verification verified).1 checked in
            ground (arith, missed, of_a, done, checked),
      )

  unsure-effect :
      (db : Db)
      → uncertain_workos input db ≡ true
      → (e : EffectRow) × (e ∈ db.provider_effect_ledger)
        × (e.idempotency_key ≡ input.idempotency_key)
        × (e.tenant_id ≡ input.tenant_id)
        × (e.plan_id ≡ input.plan_id)
        × (e.action_id ≡ input.action_id)
        × (e.status ≡ uncertain)
  unfolding uncertain_workos
  unsure-effect db h =
      let (e, there, met) = any-member _ db.provider_effect_ledger h in
      (
        e,
        there,
        (str_eq_iff e.idempotency_key input.idempotency_key).0 (ground (arith, met)),
        (str_eq_iff e.tenant_id input.tenant_id).0 (ground (arith, met)),
        (str_eq_iff e.plan_id input.plan_id).0 (ground (arith, met)),
        (str_eq_iff e.action_id input.action_id).0 (ground (arith, met)),
        (effect_eq_iff e.status uncertain).0 (ground (arith, met)),
      )

  WithinBudget-Budgeted :
      (db : Db) (row : Option AttemptRow)
      → WithinBudget row (uncertain_workos input db)
      → Budgeted input db (suc (attempts_made row))
  WithinBudget-Budgeted db row (inl few) = inl (omega (arith, few))
  WithinBudget-Budgeted db row (inr (unsure, few)) =
      let (e, there, k, t, p, c, s) = unsure-effect db unsure in
      inr (omega (arith, few), e, there, k, t, p, c, s)

  Grants-GrantedOn :
      (db mid : Db) (row : Option AttemptRow)
      → latest_attempt input db ≡ row
      → verified_attempt input db ≡ none
      → WithinBudget row (uncertain_workos input db)
      → Keeps db mid
      → Grants input deps row mid
      → GrantedOn input deps.now db (suc (attempts_made row))
  Grants-GrantedOn db mid row latest unverified budget keeps grounds =
      let current = grounds.current in
      let (there, claimed, clear) = current-facts mid current grounds.authorized in
      let (d, in_db, same) = keeps.was current there in
      let t : current.tenant_id ≡ input.tenant_id =
        (str_eq_iff current.tenant_id input.tenant_id).0 (ground (arith, claimed)) in
      let i : current.incident_id ≡ input.incident_id =
        (str_eq_iff current.incident_id input.incident_id).0 (ground (arith, claimed)) in
      let p : current.plan_id ≡ input.plan_id =
        (str_eq_iff current.plan_id input.plan_id).0 (ground (arith, claimed)) in
      let c : current.action_id ≡ input.action_id =
        (str_eq_iff current.action_id input.action_id).0 (ground (arith, claimed)) in
      record {
        earlier = λ a. earlier-attempts db row a latest unverified;
        budget = WithinBudget-Budgeted db row budget;
        current = d;
        there = in_db;
        of_tenant = sym same.tenant ∙ t;
        of_incident = sym same.incident ∙ i;
        of_plan = sym same.plan ∙ p;
        is_action = sym same.action ∙ c;
        in_order = λ b in_b tb ib pb before.
            let (b', in_mid, same_b) = keeps.is b in_b in
            same_b.completes (
              predecessor-completed mid current b' clear in_mid (same_b.tenant ∙ tb ∙ sym t)
                (same_b.incident ∙ ib ∙ sym i) (same_b.plan ∙ pb ∙ sym p)
                (omega (arith, before, same_b.ordinal, same.ordinal)));
        within_rate =
            subst
              (λ y.
                count_rows (is_recent input.tenant_id deps.now y db.containment_actions)
                  db.containment_action_attempts
                < input.rate_limit)
              same.action_type
              (subst (λ n. n < input.rate_limit) (keeps.recent current.action_type)
                grounds.within_rate);
      }

-- A claim is granted only within the budget of attempts, for an action that exists, after every action
-- before it in its plan has completed, below the rate limit of the last minute for actions of its
-- type, with a number above all earlier ones, and if no attempt of the action was verified.
pub claim_containment_action-GrantedOn :
    (input : ClaimInput) (deps : ClaimDependencies) (db db' : Db) (fence_token : String)
    (attempt : ℕ)
    → claim_containment_action input deps db ≡ ok (granted fence_token attempt, db')
    → GrantedOn input deps.now db attempt
claim_containment_action-GrantedOn input deps db db' fence_token attempt h =
    elim (claim-Step input deps db db' (granted fence_token attempt) h).0 [
      | kept refused same ↦ cc
      | closed p f refused closing same ↦ cc
      | added row mid latest unverified budget prepared released grounds is_new grown ↦
          subst (GrantedOn input deps.now db) (sym (ap attempt_of is_new)) (
            Grants-GrantedOn input deps db mid row latest unverified budget
              (Prepared-Keeps input deps row db mid prepared) grounds)
    ]
