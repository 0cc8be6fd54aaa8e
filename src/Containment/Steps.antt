-- ===== src/Containment/Steps.antt =====
-- What a claim that returned has done to the attempts and to the provider's ledger.
use template_security_incide.Prelude.{
  suc, ◌<◌, String, ◌≡◌, ◌⊎◌, Bool, true, false, Option, none, some, List, [], ◌∷◌, ◌++◌, any, ltb,
  ◌==◌, string_eq, update_rows,
}
use template_security_incide.Schemas.Containment.{executing, execution_eq}
use template_security_incide.Store.ContainmentRows.{ActionRow, AttemptRow, EffectRow}
use template_security_incide.Store.Rows.{Db}
use template_security_incide.Store.Tx.{ok}
use template_security_incide.Store.ContainmentWrites.{same_attempt_key}
use template_security_incide.Containment.Reads.{
  ClaimInput, ClaimDependencies, ActionClaim, granted, replayed, denied, latest_attempt,
  verified_attempt, attempts_made, authorized_action, recent_of, uncertain_workos,
}
use template_security_incide.Containment.Claim.{is_held, stopped, next_attempt, fence_off}
use template_security_incide.Containment.Attempts.{Closing, IsExecuting}

abbrev pub is_granted : ActionClaim → Bool
is_granted (granted _ _) = true
is_granted (replayed _) = false
is_granted (denied _) = false

abbrev pub has_effect : String → List EffectRow → Bool
has_effect key rows = any (λ e. e.idempotency_key == key) rows

-- No entry of the ledger goes away.
abbrev pub KeepsLedger : Db → Db → Type 0
KeepsLedger db db' =
    (key : String)
    → has_effect key db.provider_effect_ledger ≡ true
    → has_effect key db'.provider_effect_ledger ≡ true

-- The attempts among which the newest no longer executes: it did not, or its lease has ended and it
-- has been fenced off.
pub data Released (input : ClaimInput) (deps : ClaimDependencies) (rows : List AttemptRow)
    : Option AttemptRow → List AttemptRow → Type 0 where
  first : Released input deps rows none rows
  idle :
      (row : AttemptRow)
      → (row.status == executing) ≡ false
      → Released input deps rows (some row) rows
  fenced :
      (row : AttemptRow)
      → IsExecuting row
      → ltb deps.now row.lease_expires_at ≡ false
      → Released input deps rows
          (some row)
          (update_rows (is_held input deps row) (stopped input deps) rows)

-- The budget: three attempts, and three more that only read back an uncertain effect.
abbrev pub WithinBudget : Option AttemptRow → Bool → Type 0
WithinBudget row uncertain_effect =
    (attempts_made row < 3) ⊎ ((uncertain_effect ≡ true) × (attempts_made row < 6))

-- The database in which the newest attempt has been released: the one of the claim, or the one that
-- fencing the attempt off has left.
abbrev pub Prepared : ClaimInput → ClaimDependencies → Db → Option AttemptRow → Db → Type 0
Prepared input deps db row mid =
    (mid ≡ db) ⊎ ((a : AttemptRow) × (row ≡ some a) × (fence_off input deps a db ≡ ok (tt, mid)))

-- The grounds of a grant, on that database.
pub record Grants (input : ClaimInput) (deps : ClaimDependencies) (row : Option AttemptRow)
    (mid : Db) : Type 0 where
  pub current : ActionRow
  pub authorized : authorized_action input mid ≡ some current
  pub within_rate : recent_of input deps.now (some current) mid < input.rate_limit
  pub fresh :
      any (same_attempt_key (next_attempt input deps row)) mid.containment_action_attempts ≡ false

pub data ClaimStep (input : ClaimInput) (deps : ClaimDependencies) (db : Db) (answer : ActionClaim)
    (db' : Db) : Type 0 where
  kept :
      is_granted answer ≡ false
      → db'.containment_action_attempts ≡ db.containment_action_attempts
      → ClaimStep input deps db answer db'
  closed :
      (p : AttemptRow → Bool) (f : AttemptRow → AttemptRow)
      → is_granted answer ≡ false
      → Closing p f
      → db'.containment_action_attempts ≡ update_rows p f db.containment_action_attempts
      → ClaimStep input deps db answer db'
  added :
      (row : Option AttemptRow) (mid : Db)
      → latest_attempt input db ≡ row
      → verified_attempt input db ≡ none
      → WithinBudget row (uncertain_workos input db)
      → Prepared input deps db row mid
      → Released input deps db.containment_action_attempts row mid.containment_action_attempts
      → Grants input deps row mid
      → answer ≡ granted deps.fence_token (suc (attempts_made row))
      → db'.containment_action_attempts
        ≡ mid.containment_action_attempts ++ next_attempt input deps row ∷ []
      → ClaimStep input deps db answer db'
