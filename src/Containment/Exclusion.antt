-- ===== src/Containment/Exclusion.antt =====
-- Who may act on an action: the holder of a running lease excludes every other claim, and a verified
-- attempt every later one.
use template_security_incide.Prelude.{
  ◌≡◌, sym, subst, true, false, ◌&&◌, Option, List, ltb, string_eq, nat_eq, ◌∈◌, arith,
}
use template_security_incide.Schemas.Containment.{execution_eq, verification_eq}
use template_security_incide.Store.ContainmentRows.{AttemptRow}
use template_security_incide.Store.Rows.{Db}
use template_security_incide.Store.Tx.{ok}
use template_security_incide.Containment.Reads.{
  ClaimInput, ClaimDependencies, ActionClaim, newest, of_action, verified_attempt, latest_attempt,
  is_verified,
}
use template_security_incide.Containment.Claim.{claim_containment_action}
use template_security_incide.Containment.Attempts.{IsExecuting, OneLive, not-executing, newest-none}
use template_security_incide.Containment.Steps.{
  Released, first, idle, fenced, kept, closed, added, is_granted,
}
use template_security_incide.Containment.Claims.{claim-Step}
use template_security_incide.Containment.Live.{is_of, executing-newest}
use template_security_incide.Containment.Execution.{History}
use template_security_incide.Containment.Safety.{History-keeps_ended}

-- The newest attempt has been released, so a running lease is not its.
Released-not_leased :
    (input : ClaimInput) (deps : ClaimDependencies) (rows : List AttemptRow)
    (row : Option AttemptRow) (rows' : List AttemptRow) (a : AttemptRow)
    → OneLive rows
    → newest (is_of input deps) rows ≡ row
    → Released input deps rows row rows'
    → a ∈ rows
    → is_of input deps a ≡ true
    → IsExecuting a
    → ltb deps.now a.lease_expires_at ≡ true
    → ⊥
Released-not_leased input deps rows row rows' a live latest first in_a of_a running leased =
    let missed = newest-none (is_of input deps) rows a latest in_a in cc
Released-not_leased input deps rows row rows' a live latest (idle r still) in_a of_a running
      leased =
    let is_a =
      executing-newest input.tenant_id input.plan_id input.action_id rows a r live latest in_a of_a
        running in
    not-executing r still (subst IsExecuting (sym is_a) running)
Released-not_leased input deps rows row rows' a live latest (fenced r held ended) in_a of_a running
      leased =
    let is_a =
      executing-newest input.tenant_id input.plan_id input.action_id rows a r live latest in_a of_a
        running in
    let over : ltb deps.now a.lease_expires_at ≡ false =
      subst (λ (z : AttemptRow). ltb deps.now z.lease_expires_at ≡ false) is_a ended in
    cc

-- Where each action has at most one executing attempt: while the lease of one runs, no claim of that
-- action that returns is granted.
pub live_lease_excludes :
    (input : ClaimInput) (deps : ClaimDependencies) (db db' : Db) (answer : ActionClaim)
    (a : AttemptRow)
    → OneLive db.containment_action_attempts
    → a ∈ db.containment_action_attempts
    → of_action input.tenant_id input.plan_id input.action_id a ≡ true
    → IsExecuting a
    → ltb deps.now a.lease_expires_at ≡ true
    → claim_containment_action input deps db ≡ ok (answer, db')
    → is_granted answer ≡ false
unfolding latest_attempt
live_lease_excludes input deps db db' answer a live in_a of_a running leased h =
    elim (claim-Step input deps db db' answer h).0 [
      | kept refused same ↦ refused
      | closed p f refused closing same ↦ refused
      | added row mid latest unverified budget prepared released grounds is_granted grown ↦
          elim (Released-not_leased input deps db.containment_action_attempts row
            mid.containment_action_attempts a live latest released in_a of_a running leased) [ ]
    ]

-- Once an attempt has completed and been verified, no claim of its action that returns is granted, in
-- any history that follows.
pub verified_not_granted :
    (input : ClaimInput) (deps : ClaimDependencies) (db db' db'' : Db) (answer : ActionClaim)
    (a : AttemptRow)
    → a ∈ db.containment_action_attempts
    → of_action input.tenant_id input.plan_id input.action_id a ≡ true
    → is_verified a ≡ true
    → History db db'
    → claim_containment_action input deps db' ≡ ok (answer, db'')
    → is_granted answer ≡ false
unfolding verified_attempt
verified_not_granted input deps db db' db'' answer a in_a of_a done history h =
    elim (claim-Step input deps db' db'' answer h).0 [
      | kept refused same ↦ refused
      | closed p f refused closing same ↦ refused
      | added row mid latest unverified budget prepared released grounds is_granted grown ↦
          let there = History-keeps_ended db db' a history (ground (arith, done)) in_a in
          let missed =
            newest-none
              (λ b. of_action input.tenant_id input.plan_id input.action_id b && is_verified b)
              db'.containment_action_attempts a unverified there in
          let bad : false ≡ true = ground (arith, missed, of_a, done) in cc
    ]
