-- ===== src/Containment/Safety.antt =====
-- What every history of executions keeps: one executing attempt at an action at most, the attempts that
-- have ended, six attempts at most, one mutation for each key.
use template_security_incide.Prelude.{
  ◌≡◌, refl, subst, inl, inr, Bool, false, Option, List, ◌==◌, string_eq, update_rows, Bool-cases,
  ◌∈◌, mem-grown, mem-updated,
}
use template_security_incide.Schemas.Containment.{executing, execution_eq, verification_eq}
use template_security_incide.Store.ContainmentRows.{AttemptRow}
use template_security_incide.Store.Rows.{Db}
use template_security_incide.Containment.Reads.{ClaimInput, ClaimDependencies}
use template_security_incide.Containment.Claim.{is_held, stopped, next_attempt}
use template_security_incide.Containment.Attempts.{OneLive, OneLive-update, Closing, not-executing}
use template_security_incide.Containment.Steps.{Released, first, idle, fenced}
use template_security_incide.Containment.Claimed.{held-Closing}
use template_security_incide.Containment.Live.{OneLive-next}
use template_security_incide.Containment.Execution.{
  History, start, next_step, AttemptsStep, nothing, ending, adding, step-Changes,
}

OneLive-Released :
    (input : ClaimInput) (deps : ClaimDependencies) (rows : List AttemptRow)
    (row : Option AttemptRow) (rows' : List AttemptRow)
    → OneLive rows
    → Released input deps rows row rows'
    → OneLive rows'
OneLive-Released input deps rows row rows' live first = live
OneLive-Released input deps rows row rows' live (idle r still) = live
OneLive-Released input deps rows row rows' live (fenced r held ended) =
    OneLive-update (is_held input deps r) (stopped input deps) rows (held-Closing input deps r) live

OneLive-AttemptsStep :
    (rows rows' : List AttemptRow) → AttemptsStep rows rows' → OneLive rows → OneLive rows'
OneLive-AttemptsStep rows rows' nothing live = live
OneLive-AttemptsStep rows rows' (ending p f closing) live = OneLive-update p f rows closing live
OneLive-AttemptsStep rows rows' (adding input deps row released latest few step) live =
    OneLive-next input deps rows row released live latest step
      (OneLive-Released input deps rows row released live step)

-- Whatever claims, ends and effects follow each other: where each action has at most one executing
-- attempt, which is then its newest, it still has at most one afterwards.
pub History-OneLive :
    (db db' : Db)
    → History db db'
    → OneLive db.containment_action_attempts
    → OneLive db'.containment_action_attempts
History-OneLive db db' start live = live
History-OneLive db db' (next_step {mid = mid} before step) live =
    OneLive-AttemptsStep mid.containment_action_attempts db'.containment_action_attempts
      (step-Changes mid db' step).0 (History-OneLive db mid before live)

kept-update :
    (p : AttemptRow → Bool) (f : AttemptRow → AttemptRow) (rows : List AttemptRow) (a : AttemptRow)
    → Closing p f
    → (a.status == executing) ≡ false
    → a ∈ rows
    → a ∈ update_rows p f rows
kept-update p f rows a closing still there = elim (Bool-cases (p a)) [
  | inl met ↦ elim (not-executing a still (closing a met).was) [ ]
  | inr missed ↦
      subst (λ (z : AttemptRow). z ∈ update_rows p f rows) (rw missed refl)
        (mem-updated a p f rows there)
]

kept-released :
    (input : ClaimInput) (deps : ClaimDependencies) (rows : List AttemptRow)
    (row : Option AttemptRow) (rows' : List AttemptRow) (a : AttemptRow)
    → (a.status == executing) ≡ false
    → a ∈ rows
    → Released input deps rows row rows'
    → a ∈ rows'
kept-released input deps rows row rows' a still there first = there
kept-released input deps rows row rows' a still there (idle r idles) = there
kept-released input deps rows row rows' a still there (fenced r held ended) =
    kept-update (is_held input deps r) (stopped input deps) rows a (held-Closing input deps r) still
      there

kept-AttemptsStep :
    (rows rows' : List AttemptRow) (a : AttemptRow)
    → (a.status == executing) ≡ false
    → AttemptsStep rows rows'
    → a ∈ rows
    → a ∈ rows'
kept-AttemptsStep rows rows' a still nothing there = there
kept-AttemptsStep rows rows' a still (ending p f closing) there =
    kept-update p f rows a closing still there
kept-AttemptsStep rows rows' a still (adding input deps row released latest few step) there =
    mem-grown a released (next_attempt input deps row)
      (kept-released input deps rows row released a still there step)

-- An attempt that has ended stays in the ledger as it is, in every history.
pub History-keeps_ended :
    (db db' : Db) (a : AttemptRow)
    → History db db'
    → (a.status == executing) ≡ false
    → a ∈ db.containment_action_attempts
    → a ∈ db'.containment_action_attempts
History-keeps_ended db db' a start still there = there
History-keeps_ended db db' a (next_step {mid = mid} before step) still there =
    kept-AttemptsStep mid.containment_action_attempts db'.containment_action_attempts a still
      (step-Changes mid db' step).0 (History-keeps_ended db mid a before still there)
