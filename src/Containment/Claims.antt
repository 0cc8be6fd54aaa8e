-- ===== src/Containment/Claims.antt =====
-- A claim that returned is a step of the ledger of attempts: the whole operation.
use template_security_incide.Prelude.{
  String, ◌≡◌, refl, ap, ◌∙◌, inl, inr, Bool, true, false, Option, none, some, List, [], ◌∷◌, any,
  leb, ◌==◌, string_eq, if◌then◌else◌, update_rows, Bool-cases, arith,
}
use template_security_incide.Schemas.Containment.{executing, execution_eq}
use template_security_incide.Store.ContainmentRows.{
  AttemptRow, EffectRow, GatewayAuditOutcome, GatewayAuditReason,
}
use template_security_incide.Store.Rows.{Db}
use template_security_incide.Store.Tx.{ok, continue-elim, then_branch, read-elim, pure-eq-ok}
use template_security_incide.Store.ContainmentInversion.{
  change_attempt-eq-ok, change_action-elim, change_effect-elim,
}
use template_security_incide.Containment.Reads.{
  ClaimInput, ClaimDependencies, ActionClaim, latest_attempt, verified_attempt, attempts_made,
  uncertain_workos, is_live, DenialReason,
}
use template_security_incide.Containment.Claim.{
  is_lapsed, stopped, claim_after, expire_attempt, give_up, claim_within, claim_unverified,
  claim_containment_action,
}
use template_security_incide.Containment.Steps.{is_granted, has_effect, ClaimStep, kept, closed}
use template_security_incide.Containment.Granting.{deny-Audits, replay-Audits}
use template_security_incide.Containment.Claimed.{
  held_test, stopped-Closing, Claimed, refused-Step, claim_after-Step,
}

-- An UPDATE of the ledger that keeps the keys keeps the entries.
pub has_effect-update :
    (key : String) (p : EffectRow → Bool) (f : EffectRow → EffectRow) (rows : List EffectRow)
    → ((e : EffectRow) → (f e).idempotency_key ≡ e.idempotency_key)
    → has_effect key rows ≡ true
    → has_effect key (update_rows p f rows) ≡ true
unfolding any update_rows
has_effect-update key p f [] keeps h = h
has_effect-update key p f (e ∷ rest) keeps h = elim (Bool-cases (e.idempotency_key == key)) [
  | inl here ↦
      let same : (if p e then f e else e).idempotency_key ≡ e.idempotency_key =
        elim (Bool-cases (p e)) [ inl met ↦ rw met (keeps e) | inr missed ↦ rw missed refl ] in
      ground (arith, here, same)
  | inr other ↦
      let ih = has_effect-update key p f rest keeps (ground (arith, h, other)) in ground (arith, ih)
]

module _ (input : ClaimInput) (deps : ClaimDependencies) (db : Db) where
  -- The attempt that is expired, if one is.
  expired-Step :
      (row : Option AttemptRow) (mid db' : Db) {u : Unit {0}} (answer : ActionClaim)
      → expire_attempt input deps row db ≡ ok (u, mid)
      → is_granted answer ≡ false
      → db'.containment_action_attempts ≡ mid.containment_action_attempts
      → ClaimStep input deps db answer db'
        × (mid.provider_effect_ledger ≡ db.provider_effect_ledger)
  unfolding expire_attempt
  expired-Step none mid db' answer h refused same =
      let (u_tt, is_db) = pure-eq-ok _ _ h in
      (
        kept refused (same ∙ ap (λ (d : Db). d.containment_action_attempts) is_db),
        ap (λ (d : Db). d.provider_effect_ledger) is_db,
      )
  expired-Step (some a) mid db' {u} answer h refused same =
      elim (Bool-cases (a.status == executing)) [
        | inr still ↦
            let (u_tt, is_db) = pure-eq-ok tt db {a = tt} {db' = mid} (ground (arith, h, still)) in
            (
              kept refused (same ∙ ap (λ (d : Db). d.containment_action_attempts) is_db),
              ap (λ (d : Db). d.provider_effect_ledger) is_db,
            )
        | inl running ↦
            let changed =
              change_attempt-eq-ok (is_lapsed input deps a) (stopped input deps) db mid {u = u}
                (then_branch (a.status == executing) _ _ db _ running h) in
            (
              closed (is_lapsed input deps a) (stopped input deps) refused
                  (stopped-Closing input deps (is_lapsed input deps a)
                    λ b met. held_test a b (b.fence_token == a.fence_token) (ground (arith, met)))
                  (same ∙ ap (λ (d : Db). d.containment_action_attempts) changed),
              ap (λ (d : Db). d.provider_effect_ledger) changed,
            )
      ]

  give_up-Step :
      (row : Option AttemptRow) (db' : Db) (answer : ActionClaim)
      → give_up input deps row db ≡ ok (answer, db')
      → Claimed input deps db answer db'
  unfolding give_up
  give_up-Step row db' answer h = continue-elim _ _ _ h λ u mid expired h1.
      change_action-elim _ _ _ _ _ h1 λ h2. change_effect-elim _ _ _ _ _ h2 λ h3.
        let (refused, same, ledger) = deny-Audits input deps _ _ _ _ db' answer h3 in
        let (step, kept_ledger) = expired-Step row mid db' answer expired refused same in
        (
          step,
          λ key there. rw ledger (
              has_effect-update key _ _ mid.provider_effect_ledger (λ e. refl)
                (rw kept_ledger there)),
        )

  live-Step :
      (row : Option AttemptRow) (db' : Db) (answer : ActionClaim)
      → is_live deps.now row ≡ true
      → claim_after input deps row db ≡ ok (answer, db')
      → Claimed input deps db answer db'
  unfolding claim_after
  live-Step none db' answer live h = cc
  live-Step (some a) db' answer live h = refused-Step input deps db db' answer (
      deny-Audits input deps GatewayAuditOutcome.replayed GatewayAuditReason.action_in_progress
        DenialReason.action_in_progress db db' answer (ground (arith, h, live)))

  claim_within-Step :
      (row : Option AttemptRow) (db' : Db) (answer : ActionClaim)
      → latest_attempt input db ≡ row
      → verified_attempt input db ≡ none
      → claim_within input deps row (uncertain_workos input db) db ≡ ok (answer, db')
      → Claimed input deps db answer db'
  unfolding claim_within
  claim_within-Step row db' answer latest unverified h =
      elim (Bool-cases (uncertain_workos input db)) [
        | inl unsure ↦ elim (Bool-cases (is_live deps.now row)) [
          | inl live ↦ live-Step row db' answer live (ground (arith, h, unsure, live))
          | inr ended ↦ elim (Bool-cases (leb 6 (attempts_made row))) [
            | inl spent ↦ give_up-Step row db' answer (ground (arith, h, unsure, ended, spent))
            | inr left ↦
                claim_after-Step input deps db row db' answer
                  (latest, unverified, inr (unsure, ground (arith, left)))
                  (ground (arith, h, unsure, left))
          ]
        ]
        | inr sure ↦ elim (Bool-cases (leb 3 (attempts_made row))) [
          | inl spent ↦ refused-Step input deps db db' answer (
              deny-Audits input deps GatewayAuditOutcome.rate_limited
                GatewayAuditReason.rate_limited DenialReason.rate_limited db db' answer
                (ground (arith, h, sure, spent)))
          | inr left ↦
              claim_after-Step input deps db row db' answer
                (latest, unverified, inl (ground (arith, left))) (ground (arith, h, sure, left))
        ]
      ]

  claim_unverified-Step :
      (done : Option AttemptRow) (db' : Db) (answer : ActionClaim)
      → verified_attempt input db ≡ done
      → claim_unverified input deps done db ≡ ok (answer, db')
      → Claimed input deps db answer db'
  unfolding claim_unverified
  claim_unverified-Step (some a) db' answer found h =
      refused-Step input deps db db' answer (replay-Audits input deps _ db db' answer h)
  claim_unverified-Step none db' answer found h = read-elim _ _ _ _ h λ h1.
      read-elim _ _ _ _ h1
        λ h2. claim_within-Step (latest_attempt input db) db' answer refl found h2

  pub claim-Step :
      (db' : Db) (answer : ActionClaim)
      → claim_containment_action input deps db ≡ ok (answer, db')
      → Claimed input deps db answer db'
  unfolding claim_containment_action
  claim-Step db' answer h =
      read-elim _ _ _ _ h λ h1. claim_unverified-Step (verified_attempt input db) db' answer refl h1
