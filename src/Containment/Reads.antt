-- ===== src/Containment/Reads.antt =====
-- src/containment/execution-claims.ts: what claimContainmentAction is given and reads.
use template_security_incide.Prelude.{
  ℕ, ◌+◌, String, Bool, false, not, ◌&&◌, Option, none, some, List, [], ◌∷◌, any, ltb, leb, ◌==◌,
  nat_eq, string_eq, if◌then◌else◌, count_rows, first_row,
}
use template_security_incide.Schemas.Containment.{
  ContainmentActionType, executing, completed, verified, uncertain, execution_eq, verification_eq,
  effect_eq, action_type_eq,
}
use template_security_incide.Store.ContainmentRows.{ActionRow, AttemptRow}
use template_security_incide.Store.Rows.{Db}

pub data DenialReason : Type 0 where
  predecessor_incomplete rate_limited action_in_progress : DenialReason

pub data ActionClaim : Type 0 where
  replayed : (provider_ref : Option String) → ActionClaim
  denied : (reason : DenialReason) → ActionClaim
  granted : (fence_token : String) (attempt : ℕ) → ActionClaim

pub record ClaimInput : Type 0 where
  pub tenant_id : String
  pub incident_id : String
  pub plan_id : String
  pub approval_id : String
  pub action_id : String
  pub idempotency_key : String
  pub owner_id : String
  pub lease_ms : ℕ
  pub rate_limit : ℕ

-- The identifiers in the order in which a run draws them: one for the audit row of a run that grants
-- nothing, otherwise the fence token and the attempt's own.
pub record ClaimDependencies : Type 0 where
  pub now : ℕ
  pub audit_id : String
  pub fence_token : String
  pub attempt_id : String

abbrev pub max_workos_reconciliation_attempts : ℕ
max_workos_reconciliation_attempts = 3

-- WHERE tenant_id = ? AND plan_id = ? AND action_id = ?
unfoldable pub of_action : String → String → String → AttemptRow → Bool
of_action tenant_id plan_id action_id a =
    a.tenant_id == tenant_id && a.plan_id == plan_id && a.action_id == action_id

-- ORDER BY attempt DESC LIMIT 1
unfoldable pub newest : (AttemptRow → Bool) → List AttemptRow → Option AttemptRow
newest p [] = none
newest p (a ∷ rest) =
    let later = newest p rest in
    if p a
    then elim later [ none ↦ some a | some b ↦ if ltb a.attempt b.attempt then some b else some a ]
    else later

abbrev pub is_verified : AttemptRow → Bool
is_verified a = a.status == completed && a.verification == verified

unfoldable pub verified_attempt : ClaimInput → Db → Option AttemptRow
verified_attempt input db =
    newest (λ a. of_action input.tenant_id input.plan_id input.action_id a && is_verified a)
      db.containment_action_attempts

unfoldable pub latest_attempt : ClaimInput → Db → Option AttemptRow
latest_attempt input db =
    newest (of_action input.tenant_id input.plan_id input.action_id) db.containment_action_attempts

-- `Number(row?.attempt ?? 0)`
abbrev pub attempts_made : Option AttemptRow → ℕ
attempts_made none = 0
attempts_made (some row) = row.attempt

unfoldable pub uncertain_workos : ClaimInput → Db → Bool
unfolding any
uncertain_workos input db =
    any
      (λ e.
        e.idempotency_key == input.idempotency_key
        && e.tenant_id == input.tenant_id
        && e.incident_id == input.incident_id
        && e.plan_id == input.plan_id
        && e.action_id == input.action_id
        && e.status == uncertain)
      db.provider_effect_ledger

-- `row?.status === "executing" && String(row.lease_expires_at) > now`
abbrev pub is_live : ℕ → Option AttemptRow → Bool
is_live now none = false
is_live now (some row) = row.status == executing && ltb now row.lease_expires_at

-- A text that JavaScript takes for true.
abbrev pub truthy : Option String → Option String
truthy none = none
truthy (some s) = if s == "" then none else some s

module _ (input : ClaimInput) where
  -- WHERE tenant_id = ? AND incident_id = ? AND plan_id = ? AND action_id = ?
  abbrev pub is_claimed_action : ActionRow → Bool
  is_claimed_action c =
      c.tenant_id == input.tenant_id
      && c.incident_id == input.incident_id
      && c.plan_id == input.plan_id
      && c.action_id == input.action_id

  unfoldable pub durable_effect : AttemptRow → Db → Option String
  unfolding first_row
  durable_effect row db =
      elim (first_row
        (λ m.
          m.tenant_id == input.tenant_id
          && m.incident_id == input.incident_id
          && m.plan_id == input.plan_id
          && m.action_id == input.action_id
          && m.attempt == row.attempt
          && m.fence_token == row.fence_token)
        db.mock_containment_effects) [ none ↦ none | some m ↦ truthy (some m.provider_ref) ]

  unfoldable pub claimed_action : Db → Option ActionRow
  unfolding first_row
  claimed_action db = first_row is_claimed_action db.containment_actions

  unfoldable pub predecessors_incomplete : ActionRow → Db → ℕ
  unfolding count_rows
  predecessors_incomplete current db =
      count_rows
        (λ c.
          c.tenant_id == current.tenant_id
          && c.incident_id == current.incident_id
          && c.plan_id == current.plan_id
          && ltb c.ordinal current.ordinal
          && not (c.status == completed))
        db.containment_actions

  -- The attempts of the tenant at actions of this type that started within the last minute.
  unfoldable pub recent_attempts : (now : ℕ) → ContainmentActionType → Db → ℕ
  unfolding count_rows any
  recent_attempts now action_type db =
      count_rows
        (λ a.
          a.tenant_id == input.tenant_id
          && leb now (a.started_at + 60000)
          && any
              (λ c.
                c.tenant_id == a.tenant_id
                && c.incident_id == a.incident_id
                && c.plan_id == a.plan_id
                && c.action_id == a.action_id
                && c.action_type == action_type)
              db.containment_actions)
        db.containment_action_attempts

  -- `!authorizedAction || Number(authorizedAction.incomplete) > 0`, else the action.
  unfoldable pub authorized_action : Db → Option ActionRow
  unfolding claimed_action predecessors_incomplete
  authorized_action db = elim (claimed_action db) [
    | none ↦ none
    | some current ↦ if ltb 0 (predecessors_incomplete current db) then none else some current
  ]

  -- `recent` is read only where there is an action.
  abbrev pub recent_of : (now : ℕ) → Option ActionRow → Db → ℕ
  recent_of now none db = 0
  recent_of now (some current) db = recent_attempts now current.action_type db
