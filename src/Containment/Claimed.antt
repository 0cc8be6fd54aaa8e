-- ===== src/Containment/Claimed.antt =====
-- A claim that returned is a step of the ledger of attempts.
use template_security_incide.Prelude.{
  String, ◌≡◌, refl, sym, ap, ◌∙◌, subst, inl, inr, Bool, true, false, ◌&&◌, Option, none, some,
  List, ltb, ◌==◌, string_eq, update_rows, Bool-cases, arith,
}
use template_security_incide.Schemas.Containment.{executing, execution_eq, execution_eq_iff}
use template_security_incide.Store.ContainmentRows.{
  AttemptRow, GatewayAuditOutcome, GatewayAuditReason,
}
use template_security_incide.Store.Rows.{Db}
use template_security_incide.Store.Tx.{ok, continue-elim, read-elim}
use template_security_incide.Store.ContainmentInversion.{
  change_attempt-elim, change_action-elim, change_action-eq-ok,
}
use template_security_incide.Containment.Reads.{
  ClaimInput, ClaimDependencies, ActionClaim, latest_attempt, verified_attempt, uncertain_workos,
  durable_effect, DenialReason,
}
use template_security_incide.Containment.Claim.{
  is_held, stopped, reconciled, try_grant, fence_off, reconcile, take_over, claim_after,
}
use template_security_incide.Containment.Attempts.{Closing, IsExecuting}
use template_security_incide.Containment.Steps.{
  is_granted, KeepsLedger, Released, first, idle, fenced, WithinBudget, ClaimStep, kept, closed,
  added, Prepared,
}
use template_security_incide.Containment.Granting.{deny-Audits, replay-Audits, try_grant-GrantStep}

pub held_test :
    (row a : AttemptRow) (t : Bool)
    → (a.id == row.id && a.status == executing && t) ≡ true
    → IsExecuting a
held_test row a t h = (execution_eq_iff a.status executing).0 (ground (arith, h))

module _ (input : ClaimInput) (deps : ClaimDependencies) where
  pub stopped-Closing :
      (p : AttemptRow → Bool)
      → ((a : AttemptRow) → p a ≡ true → IsExecuting a)
      → Closing p (stopped input deps)
  stopped-Closing p running a met = record {
    was = running a met;
    ended = refl;
    same = (refl, refl, refl);
    number = refl;
  }

  reconciled-Closing :
      (row : AttemptRow) (provider_ref : String)
      → Closing (is_held input deps row) (reconciled input deps provider_ref)
  reconciled-Closing row provider_ref a met = record {
    was = held_test row a (a.fence_token == row.fence_token) met;
    ended = refl;
    same = (refl, refl, refl);
    number = refl;
  }

  pub held-Closing : (row : AttemptRow) → Closing (is_held input deps row) (stopped input deps)
  held-Closing row =
      stopped-Closing (is_held input deps row)
        λ a met. held_test row a (a.fence_token == row.fence_token) met

  abbrev pub Claimed : Db → ActionClaim → Db → Type 0
  Claimed db answer db' = ClaimStep input deps db answer db' × KeepsLedger db db'

  pub same_ledger :
      (db db' : Db) → db'.provider_effect_ledger ≡ db.provider_effect_ledger → KeepsLedger db db'
  same_ledger db db' same key h = rw same h

  -- A refusal after the newest attempt has been released.
  Released-Step :
      (db db' : Db) (answer : ActionClaim) (row : Option AttemptRow) (rows : List AttemptRow)
      → Released input deps db.containment_action_attempts row rows
      → is_granted answer ≡ false
      → db'.containment_action_attempts ≡ rows
      → ClaimStep input deps db answer db'
  Released-Step db db' answer row rows first refused same = kept refused same
  Released-Step db db' answer row rows (idle a still) refused same = kept refused same
  Released-Step db db' answer row rows (fenced a running ended) refused same =
      closed (is_held input deps a) (stopped input deps) refused (held-Closing a) same

  fence_off-eq-ok :
      (a : AttemptRow) (db mid : Db) {u : Unit {0}}
      → fence_off input deps a db ≡ ok (u, mid)
      → (mid.containment_action_attempts
          ≡ update_rows (is_held input deps a) (stopped input deps) db.containment_action_attempts)
        × (mid.provider_effect_ledger ≡ db.provider_effect_ledger)
  unfolding fence_off
  fence_off-eq-ok a db mid h = change_attempt-elim _ _ _ _ _ h λ h1.
      let same = change_action-eq-ok _ _ _ _ h1 in
      (
        ap (λ (d : Db). d.containment_action_attempts) same,
        ap (λ (d : Db). d.provider_effect_ledger) same,
      )

  -- What is known of the newest attempt where a run comes to grant one.
  abbrev pub Ready : Db → Option AttemptRow → Type 0
  Ready db row =
      (latest_attempt input db ≡ row)
      × (verified_attempt input db ≡ none)
      × WithinBudget row (uncertain_workos input db)

  module _ (db : Db) where
    grant-Step :
        (row : Option AttemptRow) (mid db' : Db) (answer : ActionClaim)
        → Ready db row
        → Prepared input deps db row mid
        → Released input deps db.containment_action_attempts row mid.containment_action_attempts
        → mid.provider_effect_ledger ≡ db.provider_effect_ledger
        → try_grant input deps row mid ≡ ok (answer, db')
        → Claimed db answer db'
    grant-Step row mid db' answer (latest, unverified, budget) prepared released ledger h =
        let (step, ledger') = try_grant-GrantStep input deps row mid db' answer h in
        (
          elim step [
            | inl (refused, same) ↦
                Released-Step db db' answer row mid.containment_action_attempts released refused
                  same
            | inr (grounds, is_granted, grown) ↦
                added row mid latest unverified budget prepared released grounds is_granted grown
          ],
          same_ledger db db' (ledger' ∙ ledger),
        )

    pub refused-Step :
        (db' : Db) (answer : ActionClaim)
        → (is_granted answer ≡ false)
          × (db'.containment_action_attempts ≡ db.containment_action_attempts)
          × (db'.provider_effect_ledger ≡ db.provider_effect_ledger)
        → Claimed db answer db'
    refused-Step db' answer (refused, same, ledger) = (kept refused same, same_ledger db db' ledger)

    take_over-Step :
        (a : AttemptRow) (effect : Option String) (db' : Db) (answer : ActionClaim)
        → Ready db (some a)
        → IsExecuting a
        → ltb deps.now a.lease_expires_at ≡ false
        → take_over input deps a effect db ≡ ok (answer, db')
        → Claimed db answer db'
    unfolding take_over reconcile
    take_over-Step a (some provider_ref) db' answer ready running ended h =
        change_attempt-elim _ _ _ _ _ h λ h1. change_action-elim _ _ _ _ _ h1 λ h2.
          let (refused, same, ledger) = replay-Audits input deps _ _ db' answer h2 in
          (
            closed (is_held input deps a) (reconciled input deps provider_ref) refused
                (reconciled-Closing a provider_ref) same,
            same_ledger db db' ledger,
          )
    take_over-Step a none db' answer ready running ended h =
        continue-elim _ _ _ h λ u mid fenced_off rest.
          let (attempts, ledger) = fence_off-eq-ok a db mid fenced_off in
          grant-Step (some a) mid db' answer ready (inr (a, refl, fenced_off))
            (subst (Released input deps db.containment_action_attempts (some a)) (sym attempts)
              (fenced a running ended))
            ledger rest

    pub claim_after-Step :
        (row : Option AttemptRow) (db' : Db) (answer : ActionClaim)
        → Ready db row
        → claim_after input deps row db ≡ ok (answer, db')
        → Claimed db answer db'
    unfolding claim_after
    claim_after-Step none db' answer ready h =
        grant-Step none db db' answer ready (inl refl) first refl h
    claim_after-Step (some a) db' answer ready h = elim (Bool-cases (a.status == executing)) [
      | inr still ↦
          grant-Step (some a) db db' answer ready (inl refl) (idle a still) refl
            (ground (arith, h, still))
      | inl running ↦ elim (Bool-cases (ltb deps.now a.lease_expires_at)) [
        | inl live ↦ refused-Step db' answer (
            deny-Audits input deps GatewayAuditOutcome.replayed
              GatewayAuditReason.action_in_progress DenialReason.action_in_progress db db' answer
              (ground (arith, h, running, live)))
        | inr ended ↦
            take_over-Step a (durable_effect input a db) db' answer ready
              ((execution_eq_iff a.status executing).0 running) ended
              (read-elim (durable_effect input a) db (take_over input deps a) _
                (ground (arith, h, running, ended)) λ h1. h1)
      ]
    ]
