-- ===== src/Containment/Mutations.antt =====
-- The remote mutation: claimed once for each key, by the holder of the fence, on the grounds of a grant.
use template_security_incide.Prelude.{
  ℕ, String, ◌≡◌, ◌≢◌, sym, ◌∙◌, subst, inl, inr, true, false, ◌==◌, string_eq, str_eq_iff, nat_eq,
  Bool-cases, ◌∈◌, any-false, arith,
}
use template_security_incide.Schemas.Containment.{
  executing, execution_eq, execution_eq_iff, verification_eq,
}
use template_security_incide.Domain.Errors.{validation_failed, domain_error}
use template_security_incide.Store.ContainmentRows.{AttemptRow}
use template_security_incide.Store.Rows.{Db}
use template_security_incide.Store.Tx.{ok, err, steps}
use template_security_incide.Containment.Reads.{ClaimInput, ClaimDependencies, granted, of_action}
use template_security_incide.Containment.Claim.{claim_containment_action}
use template_security_incide.Containment.Effects.{
  ProviderEffectBinding, EffectClaim, is_active, is_authoritative, claim_provider_effect,
}
use template_security_incide.Containment.Attempts.{OneLive}
use template_security_incide.Containment.Steps.{has_effect}
use template_security_incide.Containment.Live.{of_action_iff}
use template_security_incide.Containment.Ledger.{claim_provider_effect-Step}
use template_security_incide.Containment.Execution.{History, start, next_step, step-Changes}
use template_security_incide.Containment.Fences.{granted-Alone}

-- Where each action has at most one executing attempt: after a claim has been granted, no provider
-- effect of the action is claimed with any other fence token; the call fails its validation.
pub stale_fence_no_effect :
    (input : ClaimInput) (deps : ClaimDependencies) (db db' : Db) (fence_token : String)
    (attempt : ℕ) (effect : ProviderEffectBinding)
    → OneLive db.containment_action_attempts
    → claim_containment_action input deps db ≡ ok (granted fence_token attempt, db')
    → effect.tenant_id ≡ input.tenant_id
    → effect.plan_id ≡ input.plan_id
    → effect.action_id ≡ input.action_id
    → (effect.fence_token == fence_token) ≡ false
    → claim_provider_effect effect db' ≡ err (domain_error validation_failed)
unfolding claim_provider_effect is_authoritative steps of_action
stale_fence_no_effect input deps db db' fence_token attempt effect live h t p c stale =
    let (alone, is_fence) = granted-Alone input deps db db' fence_token attempt live h in
    let unmet : (a : AttemptRow)
        → a ∈ db'.containment_action_attempts
        → is_active effect a ≡ false =
      λ a in_a. elim (Bool-cases (is_active effect a)) [
        | inr missed ↦ missed
        | inl met ↦
            let of_effect : of_action effect.tenant_id effect.plan_id effect.action_id a ≡ true =
              ground (arith, met) in
            let (at, ap_, ac) =
              (of_action_iff effect.tenant_id effect.plan_id effect.action_id a).0 of_effect in
            let of_a =
              (of_action_iff input.tenant_id input.plan_id input.action_id a).1
                (at ∙ t, ap_ ∙ p, ac ∙ c) in
            let running = (execution_eq_iff a.status executing).0 (ground (arith, met)) in
            let held : a.fence_token ≡ effect.fence_token =
              (str_eq_iff a.fence_token effect.fence_token).0 (ground (arith, met)) in
            let same = sym held ∙ alone a in_a of_a running ∙ sym is_fence in
            let bad = (str_eq_iff effect.fence_token fence_token).1 same in cc
      ] in
    let nowhere = any-false (is_active effect) db'.containment_action_attempts unmet in
    ground (arith, nowhere)

History-has_effect :
    (db db' : Db) (key : String)
    → History db db'
    → has_effect key db.provider_effect_ledger ≡ true
    → has_effect key db'.provider_effect_ledger ≡ true
History-has_effect db db' key start there = there
History-has_effect db db' key (next_step {mid = mid} before step) there =
    (step-Changes mid db' step).1 key (History-has_effect db mid key before there)

-- For one idempotency key, at most one claim is answered `claimed`, which is the answer on which the
-- provider is asked to change something: none that comes later is, whatever happens in between.
pub one_mutation_per_key :
    (one other : ProviderEffectBinding) (db claimed_db mid db' : Db) (answer : EffectClaim)
    → claim_provider_effect one db ≡ ok (EffectClaim.claimed, claimed_db)
    → History claimed_db mid
    → other.idempotency_key ≡ one.idempotency_key
    → claim_provider_effect other mid ≡ ok (answer, db')
    → answer ≢ EffectClaim.claimed
one_mutation_per_key one other db claimed_db mid db' answer h history same h' claimed_again =
    let (kept_one, authorized_one, there, fresh_one) =
      claim_provider_effect-Step one db claimed_db EffectClaim.claimed h in
    let (kept_other, authorized_other, there_other, fresh_other) =
      claim_provider_effect-Step other mid db' answer h' in
    let still = History-has_effect claimed_db mid one.idempotency_key history there in
    let absent : has_effect one.idempotency_key mid.provider_effect_ledger ≡ false =
      subst (λ k. has_effect k mid.provider_effect_ledger ≡ false) same
        (fresh_other claimed_again) in
    cc
