-- ===== src/Containment/Effects.antt =====
-- src/db/provider-effect-operations.ts: the ledger that a remote mutation is claimed in.
use template_security_incide.Prelude.{
  ℕ, String, Bool, true, false, not, ◌&&◌, ◌||◌, Option, none, some, [], ◌∷◌, ◌++◌, any, ltb, ◌==◌,
  nat_eq, string_eq, option_eq, if◌then◌else◌, first_row,
}
use template_security_incide.Schemas.Containment.{
  ContainmentActionType, executing, EffectStatus, execution_eq, effect_eq, action_type_eq,
}
use template_security_incide.Domain.Errors.{
  conflict, validation_failed, storage_unavailable, domain_error,
}
use template_security_incide.Store.ContainmentRows.{ActionRow, AttemptRow, EffectRow}
use template_security_incide.Store.Rows.{Db}
use template_security_incide.Store.Tx.{Tx, ok, err, ◌>>=◌, ◌>>◌, pure, throw_if, read, expect}
use template_security_incide.Store.Writes.{incident_at, has_incident}
use template_security_incide.Store.ContainmentWrites.{is_sized, change_effect}

pub data EffectClaim : Type 0 where
  claimed succeeded uncertain in_flight : EffectClaim

-- `operation` is one of the first two action types.
pub record ProviderEffectBinding : Type 0 where
  pub tenant_id : String
  pub incident_id : String
  pub approval_id : String
  pub subject_id : String
  pub plan_id : String
  pub action_id : String
  pub target_id : String
  pub idempotency_key : String
  pub fence_token : String
  pub operation : ContainmentActionType
  pub now : ℕ

unfoldable pub effect_of : String → Db → Option EffectRow
unfolding first_row
effect_of key db = first_row (λ e. e.idempotency_key == key) db.provider_effect_ledger

module _ (input : ProviderEffectBinding) where
  -- The attempt that holds the fence, with a lease that runs.
  abbrev pub is_active : AttemptRow → Bool
  is_active a =
      a.tenant_id == input.tenant_id
      && a.incident_id == input.incident_id
      && a.plan_id == input.plan_id
      && a.action_id == input.action_id
      && a.approval_id == input.approval_id
      && a.fence_token == input.fence_token
      && a.status == executing
      && ltb input.now a.lease_expires_at

  -- The incident that the rows of the join share has the subject.
  unfoldable pub has_subject : Db → Bool
  unfolding incident_at
  has_subject db = elim (incident_at db input.tenant_id input.incident_id) [
    | none ↦ false
    | some incident ↦ incident.subject_id == input.subject_id
  ]

  -- The action of the attempt, joined on what both are keyed by.
  unfoldable pub joined_action : Db → Option ActionRow
  unfolding first_row
  joined_action db =
      first_row
        (λ c.
          c.tenant_id == input.tenant_id
          && c.incident_id == input.incident_id
          && c.plan_id == input.plan_id
          && c.action_id == input.action_id)
        db.containment_actions

  -- `authoritative` is a row of the join, and agrees with the input.
  unfoldable pub is_authoritative : Db → Bool
  unfolding any
  is_authoritative db =
      any is_active db.containment_action_attempts && has_subject db && elim (joined_action db) [
        | none ↦ false
        | some c ↦
            c.action_type == input.operation
            && c.target_id == some input.target_id
            && c.idempotency_key == input.idempotency_key
      ]

  abbrev pub new_effect : EffectRow
  new_effect = record {
    idempotency_key = input.idempotency_key;
    tenant_id = input.tenant_id;
    incident_id = input.incident_id;
    operation = input.operation;
    plan_id = input.plan_id;
    action_id = input.action_id;
    target_id = input.target_id;
    status = EffectStatus.claimed;
    external_ref = none;
    fence_token = input.fence_token;
    claimed_at = input.now;
    completed_at = none;
  }

  -- OR IGNORE: a key that is there, or a violated CHECK, inserts nothing; a missing parent is an error.
  unfoldable pub insert_effect : Tx Bool
  insert_effect db = elim (effect_of input.idempotency_key db) [
    | some e ↦ ok (false, db)
    | none ↦
        if not (
          is_sized 256 input.idempotency_key
          && is_sized 128 input.tenant_id
          && is_sized 128 input.incident_id
          && is_sized 128 input.plan_id
          && is_sized 128 input.action_id
          && is_sized 128 input.target_id)
        then ok (false, db)
        else if not (has_incident db input.tenant_id input.incident_id)
        then err (domain_error storage_unavailable)
        else ok (
          true,
          record db { provider_effect_ledger = db.provider_effect_ledger ++ new_effect ∷ [] },
        )
  ]

  unfoldable pub differs : EffectRow → Bool
  differs e =
      not (
        e.tenant_id == input.tenant_id
        && e.incident_id == input.incident_id
        && e.operation == input.operation
        && e.plan_id == input.plan_id
        && e.action_id == input.action_id
        && e.target_id == input.target_id)
      || (not (e.fence_token == input.fence_token) && not (e.status == EffectStatus.uncertain))

  -- A new attempt inherits an effect only when it is uncertain.
  unfoldable pub inherit_fence : EffectRow → Tx (Unit {0})
  inherit_fence e =
      if e.status == EffectStatus.uncertain && not (e.fence_token == input.fence_token)
      then change_effect
          (λ r.
            r.idempotency_key == input.idempotency_key
            && r.status == EffectStatus.uncertain
            && r.fence_token == e.fence_token)
          (λ r. record r { fence_token = input.fence_token })
      else pure tt

  abbrev pub effect_answer : Bool → EffectStatus → EffectClaim
  effect_answer inserted EffectStatus.succeeded = EffectClaim.succeeded
  effect_answer inserted EffectStatus.uncertain = EffectClaim.uncertain
  effect_answer inserted EffectStatus.claimed = if inserted then EffectClaim.claimed else in_flight
  effect_answer inserted EffectStatus.failed = if inserted then EffectClaim.claimed else in_flight

  unfoldable pub claim_provider_effect : Tx EffectClaim
  claim_provider_effect = do
    authoritative ← read is_authoritative
    throw_if (not authoritative) validation_failed
    inserted ← insert_effect
    row ← read (effect_of input.idempotency_key)
    effect ← expect row conflict
    throw_if (differs effect) conflict
    inherit_fence effect
    pure (effect_answer inserted effect.status)

-- The status that a finished effect is given.
pub data EffectOutcome : Type 0 where
  succeeded uncertain failed : EffectOutcome

abbrev pub outcome_status : EffectOutcome → EffectStatus
outcome_status succeeded = EffectStatus.succeeded
outcome_status uncertain = EffectStatus.uncertain
outcome_status failed = EffectStatus.failed

pub record FinishEffectInput : Type 0 where
  pub idempotency_key : String
  pub fence_token : String
  pub status : EffectOutcome
  pub external_ref : Option String
  pub now : ℕ

abbrev completed_at_of : EffectOutcome → ℕ → Option ℕ
completed_at_of uncertain now = none
completed_at_of succeeded now = some now
completed_at_of failed now = some now

unfoldable pub finish_provider_effect : FinishEffectInput → Tx (Unit {0})
finish_provider_effect input =
    change_effect
      (λ e.
        e.idempotency_key == input.idempotency_key
        && e.fence_token == input.fence_token
        && e.status == EffectStatus.claimed)
      (λ e. record e {
        status = outcome_status input.status;
        external_ref = input.external_ref;
        completed_at = completed_at_of input.status input.now;
      })

pub record ReconcileEffectInput : Type 0 where
  pub idempotency_key : String
  pub fence_token : String
  pub succeeded : Bool
  pub now : ℕ

-- The answer is the status, uncertain or succeeded.
unfoldable pub reconcile_provider_effect : ReconcileEffectInput → Tx EffectStatus
reconcile_provider_effect input =
    if not input.succeeded
    then pure EffectStatus.uncertain
    else (change_effect
          (λ e.
            e.idempotency_key == input.idempotency_key
            && e.fence_token == input.fence_token
            && e.status == EffectStatus.uncertain)
          (λ e. record e { status = EffectStatus.succeeded; completed_at = some input.now })
        >> pure EffectStatus.succeeded)
