-- ===== src/Containment/Numbers.antt =====
-- The attempts at one action are numbered, and there are six at most.
use template_security_incide.Prelude.{
  ℕ, suc, ◌≤◌, max, String, ◌≡◌, refl, sym, ap, ◌∙◌, inl, inr, Bool, true, Option, List, [], ◌∷◌,
  ◌++◌, count_rows, if◌then◌else◌, update_rows, Bool-cases, Option-cases, arith,
}
use template_security_incide.Store.ContainmentRows.{AttemptRow}
use template_security_incide.Store.Rows.{Db}
use template_security_incide.Containment.Reads.{
  ClaimInput, ClaimDependencies, newest, attempts_made, of_action,
}
use template_security_incide.Containment.Claim.{is_held, stopped, next_attempt}
use template_security_incide.Containment.Attempts.{Closes, Closing}
use template_security_incide.Containment.Steps.{Released, first, idle, fenced}
use template_security_incide.Containment.Claimed.{held-Closing}
use template_security_incide.Containment.Live.{is_of, of_action_iff, Same-of_action}
use template_security_incide.Containment.Execution.{
  History, start, next_step, AttemptsStep, nothing, ending, adding, step-Changes,
}

-- The greatest number among the rows.
most : (AttemptRow → Bool) → List AttemptRow → ℕ
most q [] = 0
most q (a ∷ rest) = if q a then max a.attempt (most q rest) else most q rest

attempts_made-newest :
    (q : AttemptRow → Bool) (rows : List AttemptRow) → attempts_made (newest q rows) ≡ most q rows
unfolding newest most
attempts_made-newest q [] = refl
attempts_made-newest q (a ∷ rest) =
    let ih = attempts_made-newest q rest in
    elim (Option-cases (newest q rest)) [
      | inl gone ↦ ground (arith, ih, gone)
      | inr (b, found) ↦
          let same : b.attempt ≡ most q rest = ap attempts_made (sym found) ∙ ih in
          ground (arith, same, found)
    ]

module _ (tenant_id plan_id action_id : String) where
  abbrev q : AttemptRow → Bool
  q = of_action tenant_id plan_id action_id

  q-closed : (a b : AttemptRow) → Closes a b → q b ≡ q a
  q-closed a b c = elim (Bool-cases (q a)) [
    | inl met ↦ Same-of_action tenant_id plan_id action_id a b c.same met ∙ sym met
    | inr missed ↦ elim (Bool-cases (q b)) [
      | inr missed_b ↦ missed_b ∙ sym missed
      | inl met ↦
          let back =
            Same-of_action tenant_id plan_id action_id b a
              (sym c.same.0, sym c.same.1, sym c.same.2) met in
          cc
    ]
  ]

  -- The rows of the action that a closing UPDATE leaves: as many, with the same numbers.
  updated-numbers :
      (p : AttemptRow → Bool) (f : AttemptRow → AttemptRow) (rows : List AttemptRow)
      → Closing p f
      → (count_rows q (update_rows p f rows) ≡ count_rows q rows)
        × (most q (update_rows p f rows) ≡ most q rows)
  unfolding update_rows count_rows most
  updated-numbers p f [] closing = (refl, refl)
  updated-numbers p f (a ∷ rest) closing =
      let (counts, greatest) = updated-numbers p f rest closing in
      elim (Bool-cases (p a)) [
        | inr missed ↦ rw missed (rw (counts, greatest) (refl, refl))
        | inl met ↦
            let c = closing a met in
            rw met (rw (counts, greatest, q-closed a (f a) c, c.number) (refl, refl))
      ]

  appended-numbers :
      (rows : List AttemptRow) (e : AttemptRow)
      → (count_rows q (rows ++ e ∷ [])
          ≡ (if q e then suc (count_rows q rows) else count_rows q rows))
        × (most q (rows ++ e ∷ []) ≡ (if q e then max (most q rows) e.attempt else most q rows))
  unfolding count_rows most
  appended-numbers [] e = elim (Bool-cases (q e)) [
    | inl met ↦ rw met (refl, omega arith)
    | inr missed ↦ rw missed (refl, refl)
  ]
  appended-numbers (a ∷ rest) e =
      let (counts, greatest) = appended-numbers rest e in
      elim (Bool-cases (q e)) [
        | inl met ↦ (ground (arith, counts, met), ground (arith, greatest, met))
        | inr missed ↦ (ground (arith, counts, missed), ground (arith, greatest, missed))
      ]

  -- No more attempts than the greatest number, which is at most six.
  abbrev Numbered : List AttemptRow → Type 0
  Numbered rows = (count_rows q rows ≤ most q rows) × (most q rows ≤ 6)

  Numbered-Released :
      (input : ClaimInput) (deps : ClaimDependencies) (rows : List AttemptRow)
      (row : Option AttemptRow) (rows' : List AttemptRow)
      → Released input deps rows row rows'
      → (count_rows q rows' ≡ count_rows q rows) × (most q rows' ≡ most q rows)
  Numbered-Released input deps rows row rows' first = (refl, refl)
  Numbered-Released input deps rows row rows' (idle r still) = (refl, refl)
  Numbered-Released input deps rows row rows' (fenced r held ended) =
      updated-numbers (is_held input deps r) (stopped input deps) rows (held-Closing input deps r)

  -- The scan of a claim of this action is the scan here.
  same-scan :
      (input : ClaimInput) (deps : ClaimDependencies) (row : Option AttemptRow)
      (rows : List AttemptRow)
      → q (next_attempt input deps row) ≡ true
      → most (is_of input deps) rows ≡ most q rows
  same-scan input deps row rows met =
      let (t, p, a) =
        (of_action_iff tenant_id plan_id action_id (next_attempt input deps row)).0 met in
      ap (λ x. most (of_action x input.plan_id input.action_id) rows) t
      ∙ ap (λ x. most (of_action tenant_id x input.action_id) rows) p
      ∙ ap (λ x. most (of_action tenant_id plan_id x) rows) a

  Numbered-AttemptsStep :
      (rows rows' : List AttemptRow) → AttemptsStep rows rows' → Numbered rows → Numbered rows'
  Numbered-AttemptsStep rows rows' nothing numbered = numbered
  Numbered-AttemptsStep rows rows' (ending p f closing) (counted, few) =
      let (counts, greatest) = updated-numbers p f rows closing in
      (omega (arith, counts, greatest, counted), omega (arith, greatest, few))
  Numbered-AttemptsStep rows rows' (adding input deps row released latest left step)
        (counted, few) =
      let next = next_attempt input deps row in
      let (counts, greatest) = Numbered-Released input deps rows row released step in
      let (counts', greatest') = appended-numbers released next in
      elim (Bool-cases (q next)) [
        | inr missed ↦
            let same_count = counts' ∙ rw missed refl ∙ counts in
            let same_most = greatest' ∙ rw missed refl ∙ greatest in
            (omega (arith, same_count, same_most, counted), omega (arith, same_most, few))
        | inl met ↦
            let made : attempts_made row ≡ most q rows =
              ap attempts_made (sym latest)
              ∙ attempts_made-newest (is_of input deps) rows
              ∙ same-scan input deps row rows met in
            let grown : count_rows q (released ++ next ∷ []) ≡ suc (count_rows q released) =
              counts' ∙ rw met refl in
            let newer : most q (released ++ next ∷ [])
                ≡ max (most q released) (suc (attempts_made row)) =
              greatest' ∙ rw met refl in
            (
              omega (arith, grown, newer, counts, greatest, made, counted),
              omega (arith, newer, greatest, made, few, left),
            )
      ]

  Numbered-History :
      (db db' : Db)
      → History db db'
      → Numbered db.containment_action_attempts
      → Numbered db'.containment_action_attempts
  Numbered-History db db' start numbered = numbered
  Numbered-History db db' (next_step {mid = mid} before step) numbered =
      Numbered-AttemptsStep mid.containment_action_attempts db'.containment_action_attempts
        (step-Changes mid db' step).0 (Numbered-History db mid before numbered)

  no-rows : (rows : List AttemptRow) → count_rows q rows ≡ 0 → most q rows ≡ 0
  unfolding count_rows most
  no-rows [] h = refl
  no-rows (a ∷ rest) h = elim (Bool-cases (q a)) [
    | inl met ↦ ground (arith, h, met)
    | inr missed ↦ let ih = no-rows rest (ground (arith, h, missed)) in ground (arith, ih, missed)
  ]

-- An action that has had no attempt gets at most six in every history, whatever is claimed, ended,
-- taken over or reconciled.
pub at_most_six :
    (tenant_id plan_id action_id : String) (db db' : Db)
    → History db db'
    → count_rows (of_action tenant_id plan_id action_id) db.containment_action_attempts ≡ 0
    → count_rows (of_action tenant_id plan_id action_id) db'.containment_action_attempts ≤ 6
at_most_six tenant_id plan_id action_id db db' history none_yet =
    let least = no-rows tenant_id plan_id action_id db.containment_action_attempts none_yet in
    let (counted, few) =
      Numbered-History tenant_id plan_id action_id db db' history
        (omega (arith, none_yet), omega (arith, least)) in
    omega (arith, counted, few)
