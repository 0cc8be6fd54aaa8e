-- ===== src/Containment/Fences.antt =====
-- A granted claim shuts out every older fence token, at the end of an attempt and at the provider.
use template_security_incide.Prelude.{
  ℕ, String, ◌≡◌, refl, sym, ap, ◌∙◌, subst, inl, inr, true, false, List, ◌==◌, string_eq,
  str_eq_iff, nat_eq, Bool-cases, ◌∈◌, mem-added, any-false, count_rows-zero, arith,
}
use template_security_incide.Schemas.Containment.{
  executing, execution_eq, execution_eq_iff, verification_eq,
}
use template_security_incide.Domain.Errors.{conflict, domain_error}
use template_security_incide.Store.ContainmentRows.{AttemptRow}
use template_security_incide.Store.Rows.{Db}
use template_security_incide.Store.Tx.{ok, err, steps}
use template_security_incide.Store.ContainmentWrites.{change_attempt}
use template_security_incide.Containment.Reads.{
  ClaimInput, ClaimDependencies, ActionClaim, granted, replayed, denied, of_action,
}
use template_security_incide.Containment.Claim.{claim_containment_action, next_attempt}
use template_security_incide.Containment.Finish.{
  FinishInput, is_fenced, violates_error_check, finish_containment_action,
}
use template_security_incide.Containment.Attempts.{IsExecuting, OneLive}
use template_security_incide.Containment.Steps.{kept, closed, added, is_granted}
use template_security_incide.Containment.Claims.{claim-Step}
use template_security_incide.Containment.Live.{of_action_iff}
use template_security_incide.Containment.Execution.{start, next_step, claims}
use template_security_incide.Containment.Safety.{History-OneLive}

abbrev fence_of : ActionClaim → String
fence_of (granted fence_token _) = fence_token
fence_of (replayed _) = ""
fence_of (denied _) = ""

module _ (input : ClaimInput) (deps : ClaimDependencies) where
  -- What a grant leaves: its attempt, executing, alone at the action.
  abbrev pub Alone : List AttemptRow → Type 0
  Alone rows =
      (a : AttemptRow)
      → a ∈ rows
      → of_action input.tenant_id input.plan_id input.action_id a ≡ true
      → IsExecuting a
      → a.fence_token ≡ deps.fence_token

  pub granted-Alone :
      (db db' : Db) (fence_token : String) (attempt : ℕ)
      → OneLive db.containment_action_attempts
      → claim_containment_action input deps db ≡ ok (granted fence_token attempt, db')
      → Alone db'.containment_action_attempts × (fence_token ≡ deps.fence_token)
  granted-Alone db db' fence_token attempt live h =
      let live' =
        History-OneLive db db' (next_step start (claims input deps (granted fence_token attempt) h))
          live in
      elim (claim-Step input deps db db' (granted fence_token attempt) h).0 [
        | kept refused same ↦ cc
        | closed p f refused closing same ↦ cc
        | added row mid latest unverified budget prepared released grounds is_granted grown ↦
            let new = next_attempt input deps row in
            let there : new ∈ db'.containment_action_attempts =
              subst (λ (z : List AttemptRow). new ∈ z) (sym grown)
                (mem-added mid.containment_action_attempts new) in
            (
              λ a in_a of_a running.
                  let (t, p, c) =
                    (of_action_iff input.tenant_id input.plan_id input.action_id a).0 of_a in
                  elim (live' new a there in_a refl (sym t, sym p, sym c)) [
                    | inr is_new ↦ ap (λ (z : AttemptRow). z.fence_token) is_new
                    | inl less ↦ elim (live' a new in_a there running (t, p, c)) [
                      | inr is_new ↦ sym (ap (λ (z : AttemptRow). z.fence_token) is_new)
                      | inl more ↦ let bad : ⊥ = omega (arith, less, more) in elim bad [ ]
                    ]
                  ],
              ap (λ x. fence_of x) is_granted,
            )
      ]

-- Where each action has at most one executing attempt: after a claim has been granted, an end of an
-- attempt at the action with any other fence token is a conflict.
pub stale_fence_refused :
    (input : ClaimInput) (deps : ClaimDependencies) (db db' : Db) (fence_token : String)
    (attempt : ℕ) (end : FinishInput) (now : ℕ)
    → OneLive db.containment_action_attempts
    → claim_containment_action input deps db ≡ ok (granted fence_token attempt, db')
    → end.tenant_id ≡ input.tenant_id
    → end.plan_id ≡ input.plan_id
    → end.action_id ≡ input.action_id
    → (end.fence_token == fence_token) ≡ false
    → finish_containment_action end now db' ≡ err (domain_error conflict)
unfolding finish_containment_action violates_error_check change_attempt steps
stale_fence_refused input deps db db' fence_token attempt end now live h t p c stale =
    let (alone, is_fence) = granted-Alone input deps db db' fence_token attempt live h in
    let unmet : (a : AttemptRow)
        → a ∈ db'.containment_action_attempts
        → is_fenced end now a ≡ false =
      λ a in_a. elim (Bool-cases (is_fenced end now a)) [
        | inr missed ↦ missed
        | inl met ↦
            let of_end : of_action end.tenant_id end.plan_id end.action_id a ≡ true =
              ground (arith, met) in
            let (at, ap_, ac) =
              (of_action_iff end.tenant_id end.plan_id end.action_id a).0 of_end in
            let of_a =
              (of_action_iff input.tenant_id input.plan_id input.action_id a).1
                (at ∙ t, ap_ ∙ p, ac ∙ c) in
            let running = (execution_eq_iff a.status executing).0 (ground (arith, met)) in
            let held : a.fence_token ≡ end.fence_token =
              (str_eq_iff a.fence_token end.fence_token).0 (ground (arith, met)) in
            let same = sym held ∙ alone a in_a of_a running ∙ sym is_fence in
            let bad = (str_eq_iff end.fence_token fence_token).1 same in cc
      ] in
    let nowhere = any-false (is_fenced end now) db'.containment_action_attempts unmet in
    let uncounted = count_rows-zero (is_fenced end now) db'.containment_action_attempts unmet in
    ground (arith, nowhere, uncounted)
