-- ===== src/Store/ContainmentWrites.antt =====
-- The statements of an execution. An UPDATE that is followed by `rowsAffected !== 1` and CONFLICT is
-- one definition with that test.
use Prim.Native.Char.{code}
use template_security_incide.Prelude.{
  ℕ, String, Bool, true, false, not, ◌&&◌, ◌||◌, none, some, [], ◌∷◌, ◌++◌, any, leb, ◌==◌, nat_eq,
  string_eq, if◌then◌else◌, count_rows, update_rows,
}
use template_security_incide.Schemas.Common.{code_points}
use template_security_incide.Domain.Errors.{conflict, storage_unavailable, domain_error}
use template_security_incide.Store.ContainmentRows.{
  ActionRow, AttemptRow, EffectRow, GatewayAuditRow,
}
use template_security_incide.Store.Rows.{Db}
use template_security_incide.Store.Tx.{Tx, ok, err}

-- SQLite's trim(): the spaces at both ends.
trim_left : String → String
trim_left String.[] = String.[]
trim_left (String.◌∷◌ c s) = if code c == b' ' then trim_left s else String.◌∷◌ c s

abbrev no_text : String → Bool
no_text String.[] = true
no_text (String.◌∷◌ c s) = false

trim_right : String → String
trim_right String.[] = String.[]
trim_right (String.◌∷◌ c s) =
    let rest = trim_right s in
    if code c == b' ' && no_text rest then String.[] else String.◌∷◌ c rest

-- CHECK(length(trim(text)) BETWEEN 1 AND most)
unfoldable pub is_sized : ℕ → String → Bool
unfolding trim_left trim_right code_points
is_sized most text = let n = code_points (trim_right (trim_left text)) in leb 1 n && leb n most

-- The foreign keys of an attempt, to an approval, an action and a plan.
unfoldable pub has_parents : AttemptRow → Db → Bool
unfolding any
has_parents a db =
    elim (db.approvals a.approval_id) [
      | none ↦ false
      | some r ↦
          r.tenant_id == a.tenant_id && r.incident_id == a.incident_id && r.plan_id == a.plan_id
    ]
    && any
        (λ c.
          c.tenant_id == a.tenant_id
          && c.incident_id == a.incident_id
          && c.plan_id == a.plan_id
          && c.action_id == a.action_id
          && c.idempotency_key == a.idempotency_key)
        db.containment_actions
    && elim (db.containment_plans a.plan_id) [
      | none ↦ false
      | some r ↦ r.tenant_id == a.tenant_id && r.incident_id == a.incident_id
    ]

-- PRIMARY KEY, UNIQUE(fence_token), UNIQUE(tenant_id, plan_id, action_id, attempt),
-- UNIQUE(tenant_id, idempotency_key, attempt)
unfoldable pub same_attempt_key : AttemptRow → AttemptRow → Bool
same_attempt_key a r =
    r.id == a.id
    || r.fence_token == a.fence_token
    || (r.tenant_id == a.tenant_id
        && r.plan_id == a.plan_id
        && r.action_id == a.action_id
        && r.attempt == a.attempt)
    || (r.tenant_id == a.tenant_id
        && r.idempotency_key == a.idempotency_key
        && r.attempt == a.attempt)

-- INSERT INTO containment_action_attempts
unfoldable pub insert_attempt : AttemptRow → Tx (Unit {0})
insert_attempt a db =
    if not (is_sized 128 a.id && is_sized 128 a.owner_id && is_sized 128 a.fence_token)
    then err (domain_error storage_unavailable)
    else if any (same_attempt_key a) db.containment_action_attempts
    then err (domain_error conflict)
    else if not (has_parents a db)
    then err (domain_error storage_unavailable)
    else ok
        (tt, record db { containment_action_attempts = db.containment_action_attempts ++ a ∷ [] })

-- INSERT INTO containment_gateway_audit
unfoldable pub insert_audit : GatewayAuditRow → Tx (Unit {0})
insert_audit a db =
    if not (
      is_sized 128 a.id
      && is_sized 128 a.claimed_tenant_id
      && is_sized 128 a.claimed_incident_id
      && is_sized 128 a.claimed_plan_id
      && is_sized 128 a.claimed_approval_id
      && is_sized 128 a.claimed_action_id)
    then err (domain_error storage_unavailable)
    else if any (λ r. r.id == a.id) db.containment_gateway_audit
    then err (domain_error conflict)
    else ok (tt, record db { containment_gateway_audit = db.containment_gateway_audit ++ a ∷ [] })

unfoldable pub change_attempt : (AttemptRow → Bool) → (AttemptRow → AttemptRow) → Tx (Unit {0})
change_attempt where_ set_ db =
    if count_rows where_ db.containment_action_attempts == 1
    then ok (
      tt,
      record db {
        containment_action_attempts = update_rows where_ set_ db.containment_action_attempts;
      },
    )
    else err (domain_error conflict)

unfoldable pub change_action : (ActionRow → Bool) → (ActionRow → ActionRow) → Tx (Unit {0})
change_action where_ set_ db =
    if count_rows where_ db.containment_actions == 1
    then ok (tt, record db { containment_actions = update_rows where_ set_ db.containment_actions })
    else err (domain_error conflict)

unfoldable pub change_effect : (EffectRow → Bool) → (EffectRow → EffectRow) → Tx (Unit {0})
change_effect where_ set_ db =
    if count_rows where_ db.provider_effect_ledger == 1
    then ok (
      tt,
      record db { provider_effect_ledger = update_rows where_ set_ db.provider_effect_ledger },
    )
    else err (domain_error conflict)
