-- ===== src/Containment/Granting.antt =====
-- The end of a claim that returned: a refusal, or a new attempt.
use template_security_incide.Prelude.{
  ℕ, suc, ◌<◌, String, ◌≡◌, refl, ap, ◌⊎◌, inl, inr, false, Option, none, some, [], ◌∷◌, ◌++◌, any,
  leb, string_eq, Bool-cases, arith,
}
use template_security_incide.Schemas.Containment.{execution_eq}
use template_security_incide.Store.ContainmentRows.{
  ActionRow, AttemptRow, GatewayAuditOutcome, GatewayAuditReason,
}
use template_security_incide.Store.Rows.{Db}
use template_security_incide.Store.Tx.{ok, Tx, read-elim, pure-eq-ok}
use template_security_incide.Store.ContainmentWrites.{same_attempt_key}
use template_security_incide.Store.ContainmentInversion.{
  change_action-elim, insert_audit-elim, insert_attempt-elim,
}
use template_security_incide.Containment.Reads.{
  ClaimInput, ClaimDependencies, ActionClaim, granted, attempts_made, authorized_action, recent_of,
  DenialReason,
}
use template_security_incide.Containment.Claim.{
  next_attempt, grant, grant_in_order, try_grant, deny, replay,
}
use template_security_incide.Containment.Steps.{is_granted, Grants}

module _ (input : ClaimInput) (deps : ClaimDependencies) where
  -- A run that writes an audit row and grants nothing.
  abbrev pub Audits : Tx ActionClaim → Type 0
  Audits run =
      (db db' : Db) (answer : ActionClaim)
      → run db ≡ ok (answer, db')
      → (is_granted answer ≡ false)
        × (db'.containment_action_attempts ≡ db.containment_action_attempts)
        × (db'.provider_effect_ledger ≡ db.provider_effect_ledger)

  pub deny-Audits :
      (outcome : GatewayAuditOutcome) (code : GatewayAuditReason) (reason : DenialReason)
      → Audits (deny input deps outcome code reason)
  deny-Audits outcome code reason db db' answer h = insert_audit-elim db _ _ _ h λ done.
      let (is_denied, same) = pure-eq-ok _ _ done in
      (
        rw is_denied refl,
        ap (λ (d : Db). d.containment_action_attempts) same,
        ap (λ (d : Db). d.provider_effect_ledger) same,
      )

  pub replay-Audits : (provider_ref : Option String) → Audits (replay input deps provider_ref)
  replay-Audits provider_ref db db' answer h = insert_audit-elim db _ _ _ h λ done.
      let (is_replayed, same) = pure-eq-ok _ _ done in
      (
        rw is_replayed refl,
        ap (λ (d : Db). d.containment_action_attempts) same,
        ap (λ (d : Db). d.provider_effect_ledger) same,
      )

  pub grant-eq-ok :
      (row : Option AttemptRow) (db db' : Db) (answer : ActionClaim)
      → grant input deps row db ≡ ok (answer, db')
      → (any (same_attempt_key (next_attempt input deps row)) db.containment_action_attempts
          ≡ false)
        × (answer ≡ granted deps.fence_token (suc (attempts_made row)))
        × (db'.containment_action_attempts
            ≡ db.containment_action_attempts ++ next_attempt input deps row ∷ [])
        × (db'.provider_effect_ledger ≡ db.provider_effect_ledger)
  unfolding grant
  grant-eq-ok row db db' answer h = insert_attempt-elim _ _ _ _ h λ fresh h1.
      change_action-elim _ _ _ _ _ h1 λ done.
        let (is_granted, same) = pure-eq-ok _ _ done in
        (
          fresh,
          is_granted,
          ap (λ (d : Db). d.containment_action_attempts) same,
          ap (λ (d : Db). d.provider_effect_ledger) same,
        )

  -- What the end of a run does, once the newest attempt has been released.
  abbrev pub GrantStep : Option AttemptRow → Db → ActionClaim → Db → Type 0
  GrantStep row db answer db' =
      ((is_granted answer ≡ false)
          × (db'.containment_action_attempts ≡ db.containment_action_attempts)
        ⊎ Grants input deps row db
          × (answer ≡ granted deps.fence_token (suc (attempts_made row)))
          × (db'.containment_action_attempts
              ≡ db.containment_action_attempts ++ next_attempt input deps row ∷ []))
      × (db'.provider_effect_ledger ≡ db.provider_effect_ledger)

  leb-false : (a b : ℕ) → leb a b ≡ false → b < a
  leb-false a b h = ground arith

  grant_in_order-GrantStep :
      (row : Option AttemptRow) (current : Option ActionRow) (db db' : Db) (answer : ActionClaim)
      → authorized_action input db ≡ current
      → grant_in_order input deps row current (recent_of input deps.now current db) db
        ≡ ok (answer, db')
      → GrantStep row db answer db'
  unfolding grant_in_order
  grant_in_order-GrantStep row none db db' answer found h =
      let (refused, same, ledger) = deny-Audits _ _ _ db db' answer h in
      (inl (refused, same), ledger)
  grant_in_order-GrantStep row (some current) db db' answer found h =
      elim (Bool-cases (leb input.rate_limit (recent_of input deps.now (some current) db))) [
        | inl spent ↦
            let (refused, same, ledger) =
              deny-Audits GatewayAuditOutcome.rate_limited GatewayAuditReason.rate_limited
                DenialReason.rate_limited db db' answer (ground (arith, h, spent)) in
            (inl (refused, same), ledger)
        | inr free ↦
            let (fresh, is_granted, grown, ledger) =
              grant-eq-ok row db db' answer (ground (arith, h, free)) in
            (
              inr (
                record {
                  current = current;
                  authorized = found;
                  within_rate = omega (arith, leb-false input.rate_limit _ free);
                  fresh = fresh;
                },
                is_granted,
                grown,
              ),
              ledger,
            )
      ]

  pub try_grant-GrantStep :
      (row : Option AttemptRow) (db db' : Db) (answer : ActionClaim)
      → try_grant input deps row db ≡ ok (answer, db')
      → GrantStep row db answer db'
  unfolding try_grant
  try_grant-GrantStep row db db' answer h = read-elim _ _ _ _ h λ h1.
      read-elim _ _ _ _ h1
        λ h2. grant_in_order-GrantStep row (authorized_action input db) db db' answer refl h2
