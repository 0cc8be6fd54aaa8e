-- ===== src/Containment/Live.antt =====
-- A grant keeps at most one attempt at an action executing.
use template_security_incide.Prelude.{
  ◌≤◌, String, ◌≡◌, sym, ap, ◌∙◌, subst, ◌⊎◌, inl, inr, Bool, true, ◌↔◌, Option, some, List, [],
  ◌∷◌, ◌++◌, string_eq, str_eq_iff, eq_refl, ◌∈◌, mem-append, arith,
}
use template_security_incide.Schemas.Containment.{executing, execution_eq, execution_eq_iff}
use template_security_incide.Store.ContainmentRows.{AttemptRow}
use template_security_incide.Containment.Reads.{
  ClaimInput, ClaimDependencies, newest, of_action, attempts_made,
}
use template_security_incide.Containment.Claim.{is_held, stopped, next_attempt}
use template_security_incide.Containment.Attempts.{
  IsExecuting, Same, OneLive, mem-closed, newest-none, newest-some, not-executing,
}
use template_security_incide.Containment.Steps.{Released, first, idle, fenced}
use template_security_incide.Containment.Claimed.{held-Closing}

pub of_action_iff :
    (tenant_id plan_id action_id : String) (a : AttemptRow)
    → (of_action tenant_id plan_id action_id a ≡ true)
      ↔ ((a.tenant_id ≡ tenant_id) × (a.plan_id ≡ plan_id) × (a.action_id ≡ action_id))
unfolding of_action
of_action_iff tenant_id plan_id action_id a = ground (
  arith,
  str_eq_iff a.tenant_id tenant_id,
  str_eq_iff a.plan_id plan_id,
  str_eq_iff a.action_id action_id,
)

-- Two attempts that a scan of the action meets are attempts at one action.
pub of_action-Same :
    (tenant_id plan_id action_id : String) (a b : AttemptRow)
    → of_action tenant_id plan_id action_id a ≡ true
    → of_action tenant_id plan_id action_id b ≡ true
    → Same a b
of_action-Same tenant_id plan_id action_id a b of_a of_b =
    let (a₁, a₂, a₃) = (of_action_iff tenant_id plan_id action_id a).0 of_a in
    let (b₁, b₂, b₃) = (of_action_iff tenant_id plan_id action_id b).0 of_b in
    (a₁ ∙ sym b₁, a₂ ∙ sym b₂, a₃ ∙ sym b₃)

pub Same-of_action :
    (tenant_id plan_id action_id : String) (a b : AttemptRow)
    → Same b a
    → of_action tenant_id plan_id action_id a ≡ true
    → of_action tenant_id plan_id action_id b ≡ true
Same-of_action tenant_id plan_id action_id a b (s₁, s₂, s₃) of_a =
    let (a₁, a₂, a₃) = (of_action_iff tenant_id plan_id action_id a).0 of_a in
    (of_action_iff tenant_id plan_id action_id b).1 (s₁ ∙ a₁, s₂ ∙ a₂, s₃ ∙ a₃)

-- Where one attempt at most executes, one that does is the newest.
pub executing-newest :
    (tenant_id plan_id action_id : String) (rows : List AttemptRow) (a r : AttemptRow)
    → OneLive rows
    → newest (of_action tenant_id plan_id action_id) rows ≡ some r
    → a ∈ rows
    → of_action tenant_id plan_id action_id a ≡ true
    → IsExecuting a
    → r ≡ a
executing-newest tenant_id plan_id action_id rows a r live found in_a of_a running =
    let (in_r, of_r, most) = newest-some (of_action tenant_id plan_id action_id) rows r found in
    elim (live a r in_a in_r running (of_action-Same tenant_id plan_id action_id a r of_a of_r)) [
      | inl less ↦ let bad : ⊥ = omega (arith, less, most a in_a of_a) in elim bad [ ]
      | inr is_a ↦ is_a
    ]

module _ (input : ClaimInput) (deps : ClaimDependencies) where
  abbrev pub is_of : AttemptRow → Bool
  is_of = of_action input.tenant_id input.plan_id input.action_id

  is_held_refl : (a : AttemptRow) → IsExecuting a → is_held input deps a a ≡ true
  is_held_refl a running =
      let found = (execution_eq_iff a.status executing).1 running in
      ground (arith, found, eq_refl a.id, eq_refl a.fence_token)

  -- Once the newest attempt has been released, none at the action executes.
  pub Released-idle :
      (rows : List AttemptRow) (row : Option AttemptRow) (rows' : List AttemptRow) (a : AttemptRow)
      → OneLive rows
      → newest is_of rows ≡ row
      → Released input deps rows row rows'
      → a ∈ rows'
      → is_of a ≡ true
      → (IsExecuting a → ⊥) × (a.attempt ≤ attempts_made row)
  Released-idle rows row rows' a live latest first in_a of_a =
      let missed = newest-none is_of rows a latest in_a in cc
  Released-idle rows row rows' a live latest (idle r still) in_a of_a = (
    λ running.
        let is_a =
          executing-newest input.tenant_id input.plan_id input.action_id rows a r live latest in_a
            of_a running in
        not-executing r still (subst IsExecuting (sym is_a) running),
    (newest-some is_of rows r latest).2 a in_a of_a,
  )
  Released-idle rows row rows' a live latest (fenced r held ended) in_a of_a =
      elim (mem-closed (is_held input deps r) (stopped input deps) rows a
        (held-Closing input deps r) in_a) [
          | inl (was, missed) ↦ (
            λ running.
                let is_a =
                  executing-newest input.tenant_id input.plan_id input.action_id rows a r live
                    latest was of_a running in
                let met = is_held_refl r held in
                let met_a : is_held input deps r a ≡ true =
                  subst (λ z. is_held input deps r z ≡ true) is_a met in
                cc,
            (newest-some is_of rows r latest).2 a was of_a,
          )
          | inr (x, in_x, met, c) ↦
              let of_x =
                Same-of_action input.tenant_id input.plan_id input.action_id a x
                  (sym c.same.0, sym c.same.1, sym c.same.2) of_a in
              let below = (newest-some is_of rows r latest).2 x in_x of_x in
              (not-executing a c.ended, omega (arith, below, c.number))
        ]

  -- An attempt at the action of the next one is met by the scan.
  next-of :
      (row : Option AttemptRow) (a b : AttemptRow)
      → a ≡ next_attempt input deps row
      → Same a b ⊎ Same b a
      → is_of b ≡ true
  next-of row a b is_next same =
      let of_a : is_of a ≡ true =
        (of_action_iff input.tenant_id input.plan_id input.action_id a).1 (
          ap (λ (z : AttemptRow). z.tenant_id) is_next,
          ap (λ (z : AttemptRow). z.plan_id) is_next,
          ap (λ (z : AttemptRow). z.action_id) is_next,
        ) in
      elim same [
        | inl (s₁, s₂, s₃) ↦
            Same-of_action input.tenant_id input.plan_id input.action_id a b
              (sym s₁, sym s₂, sym s₃) of_a
        | inr there ↦ Same-of_action input.tenant_id input.plan_id input.action_id a b there of_a
      ]

  pub OneLive-next :
      (rows : List AttemptRow) (row : Option AttemptRow) (rows' : List AttemptRow)
      → OneLive rows
      → newest is_of rows ≡ row
      → Released input deps rows row rows'
      → OneLive rows'
      → OneLive (rows' ++ next_attempt input deps row ∷ [])
  OneLive-next rows row rows' live latest released live' a b in_a in_b running same =
      elim (mem-append a rows' (next_attempt input deps row) in_a) [
        | inl old_a ↦ elim (mem-append b rows' (next_attempt input deps row) in_b) [
          | inl old_b ↦ live' a b old_a old_b running same
          | inr new_b ↦
              let (still, least) =
                Released-idle rows row rows' a live latest released old_a
                  (next-of row b a new_b (inr same)) in
              elim (still running) [ ]
        ]
        | inr new_a ↦ elim (mem-append b rows' (next_attempt input deps row) in_b) [
          | inl old_b ↦
              let (still, least) =
                Released-idle rows row rows' b live latest released old_b
                  (next-of row a b new_a (inl same)) in
              inl (omega (arith, least, ap (λ (z : AttemptRow). z.attempt) new_a))
          | inr new_b ↦ inr (new_b ∙ sym new_a)
        ]
      ]
