-- ===== src/Containment/Readback.antt =====
-- What the gateway reads back of an attempt that has been ended.
use template_security_incide.Prelude.{
  ℕ, ◌≡◌, refl, sym, ap, ◌∙◌, subst, inl, inr, Bool, true, false, some, List, [], ◌∷◌, ◌==◌, nat_eq,
  string_eq, nat_beq_iff, ◌<◌, count_rows, update_rows, Bool-cases, Option-cases, ◌∈◌, mem-update,
  mem-updated, arith,
}
use template_security_incide.Schemas.Containment.{executing, execution_eq, execution_eq_iff}
use template_security_incide.Store.Rows.{Db}
use template_security_incide.Store.ContainmentRows.{AttemptRow}
use template_security_incide.Store.Tx.{ok, read-elim, throw_if-elim, continue-elim, steps}
use template_security_incide.Store.ContainmentWrites.{change_attempt}
use template_security_incide.Store.ContainmentInversion.{change_attempt-eq-ok, change_action-eq-ok}
use template_security_incide.Containment.Reads.{newest, of_action, truthy}
use template_security_incide.Containment.Finish.{
  FinishInput, final_status, is_fenced, ended, finish_containment_action,
}
use template_security_incide.Containment.Verification.{
  ReadInput, parse_outcome, read_attempt, outcome_of_row, read_containment_outcome,
}
use template_security_incide.Containment.Attempts.{OneLive, newest-none, newest-some}
use template_security_incide.Containment.Live.{of_action-Same}

count_rows-one :
    (p : AttemptRow → Bool) (rows : List AttemptRow)
    → count_rows p rows ≡ 1
    → (a : AttemptRow) × (a ∈ rows) × (p a ≡ true)
unfolding count_rows
count_rows-one p [] h = cc
count_rows-one p (x ∷ xs) h = elim (Bool-cases (p x)) [
  | inl met ↦ (x, inl refl, met)
  | inr missed ↦ let (a, there, met) = count_rows-one p xs (ground arith) in (a, inr there, met)
]

module _ (end : FinishInput) (now : ℕ) where
  abbrev of_end : AttemptRow → Bool
  of_end = of_action end.tenant_id end.plan_id end.action_id

  fenced-of_end : (a : AttemptRow) → is_fenced end now a ≡ true → of_end a ≡ true
  fenced-of_end a met = ground (arith, met)

  ended-of_end : (a : AttemptRow) → of_end a ≡ true → of_end (ended end now a) ≡ true
  unfolding of_action
  ended-of_end a of_a = of_a

  -- Where one attempt at most executes, one that the end has not met is older than the one it has.
  newer-missed :
      (rows : List AttemptRow) (a x : AttemptRow)
      → OneLive rows
      → a ∈ rows
      → x ∈ rows
      → is_fenced end now a ≡ true
      → is_fenced end now x ≡ false
      → of_end a ≡ true
      → of_end x ≡ true
      → a.status ≡ executing
      → x.attempt < a.attempt
  newer-missed rows a x live in_a in_x met missed of_a of_x running =
      elim (live a x in_a in_x running
        (of_action-Same end.tenant_id end.plan_id end.action_id a x of_a of_x)) [
          | inl less ↦ less
          | inr is_a ↦
              let hit : is_fenced end now x ≡ true =
                subst (λ (z : AttemptRow). is_fenced end now z ≡ true) (sym is_a) met in
              let bad : true ≡ false = sym hit ∙ missed in cc
        ]

  -- The newest attempt is the one that has been ended.
  newest-ended :
      (rows : List AttemptRow)
      → OneLive rows
      → count_rows (is_fenced end now) rows ≡ 1
      → (a : AttemptRow) × (newest of_end (update_rows (is_fenced end now) (ended end now) rows)
          ≡ some (ended end now a))
  newest-ended rows live one =
      let after = update_rows (is_fenced end now) (ended end now) rows in
      let (a, in_a, met) = count_rows-one (is_fenced end now) rows one in
      let of_a = fenced-of_end a met in
      let running = (execution_eq_iff a.status executing).0 (ground (arith, met)) in
      let there : ended end now a ∈ after =
        subst (λ (z : AttemptRow). z ∈ after) (rw met refl)
          (mem-updated a (is_fenced end now) (ended end now) rows in_a) in
      elim (Option-cases (newest of_end after)) [
        | inl gone ↦
            let missed = newest-none of_end after (ended end now a) gone there in
            let found = ended-of_end a of_a in cc
        | inr (b, found) ↦
            let (in_b, of_b, most) = newest-some of_end after b found in
            let (x, in_x, is_x) = mem-update b (is_fenced end now) (ended end now) rows in_b in
            elim (Bool-cases (is_fenced end now x)) [
              | inl hit ↦
                  let is_ended : b ≡ ended end now x = is_x ∙ rw hit refl in
                  (x, found ∙ ap (λ (z : AttemptRow). some z) is_ended)
              | inr missed ↦
                  let is_old : b ≡ x = is_x ∙ rw missed refl in
                  let of_x : of_end x ≡ true =
                    subst (λ (z : AttemptRow). of_end z ≡ true) is_old of_b in
                  let no = newer-missed rows a x live in_a in_x met missed of_a of_x running in
                  let least = most (ended end now a) there (ended-of_end a of_a) in
                  let bad : ⊥ =
                    omega (arith, no, least, ap (λ (z : AttemptRow). z.attempt) is_old) in
                  elim bad [ ]
            ]
      ]

  one-met :
      (db db1 : Db)
      → change_attempt (is_fenced end now) (ended end now) db ≡ ok (tt, db1)
      → count_rows (is_fenced end now) db.containment_action_attempts ≡ 1
  unfolding change_attempt
  one-met db db1 h =
      elim (Bool-cases (count_rows (is_fenced end now) db.containment_action_attempts == 1)) [
        | inl one ↦ (nat_beq_iff _ _).0 one
        | inr other ↦ ground arith
      ]

  finish-attempts :
      (db db' : Db)
      → finish_containment_action end now db ≡ ok (tt, db')
      → (count_rows (is_fenced end now) db.containment_action_attempts ≡ 1)
        × (db'.containment_action_attempts
            ≡ update_rows (is_fenced end now) (ended end now) db.containment_action_attempts)
  unfolding finish_containment_action
  finish-attempts db db' h = read-elim _ _ _ _ h λ h1. throw_if-elim _ _ _ _ _ h1 λ valid h2.
      continue-elim (change_attempt (is_fenced end now) (ended end now) db) _ _ h2 λ u db1 first h3.
        (
          one-met db db1 first,
          ap (λ (d : Db). d.containment_action_attempts)
                (change_action-eq-ok _ _ db1 db' {u = tt} h3)
              ∙ ap (λ (d : Db). d.containment_action_attempts)
                  (change_attempt-eq-ok _ _ db db1 {u = u} first),
        )

-- Where each action has at most one executing attempt: once the end of an attempt has returned, what is
-- read back of its action is the outcome that the end was given, as the schema parses it.
pub read_containment_outcome-finish_containment_action :
    (end : FinishInput) (now : ℕ) (input : ReadInput) (db db' : Db)
    → OneLive db.containment_action_attempts
    → finish_containment_action end now db ≡ ok (tt, db')
    → input.tenant_id ≡ end.tenant_id
    → input.plan_id ≡ end.plan_id
    → input.action_id ≡ end.action_id
    → read_containment_outcome input db'
      ≡ ok (
        parse_outcome input.action_id
            (final_status end.status)
            end.verification
            (truthy end.provider_ref)
            (truthy end.error_code),
        db',
      )
unfolding read_containment_outcome read_attempt outcome_of_row steps
read_containment_outcome-finish_containment_action end now input db db' live h t p c =
    let (one, after) = finish-attempts end now db db' h in
    let (a, found) = newest-ended end now db.containment_action_attempts live one in
    let latest : newest (of_action input.tenant_id input.plan_id input.action_id)
          db'.containment_action_attempts
        ≡ some (ended end now a) =
      rw (t, p, c, after) found in
    simp latest
