-- ===== src/Containment/Execution.antt =====
-- The histories of executions: claims and ends of attempts, claims, ends and reconciliations of
-- provider effects, in any order, and between them transactions of the rest of the program, which may
-- end attempts that execute and change effects, and remove none.
use template_security_incide.Prelude.{
  ℕ, ◌<◌, ◌≡◌, refl, sym, ap, subst, ◌⊎◌, inl, inr, Bool, true, false, Option, List, [], ◌∷◌, ◌++◌,
  ◌==◌, string_eq, update_rows, arith,
}
use template_security_incide.Schemas.Containment.{
  executing, execution_eq, execution_eq_iff, EffectStatus,
}
use template_security_incide.Store.ContainmentRows.{AttemptRow}
use template_security_incide.Store.Rows.{Db}
use template_security_incide.Store.Tx.{ok, read-elim, throw_if-elim}
use template_security_incide.Store.ContainmentInversion.{change_attempt-elim, change_action-eq-ok}
use template_security_incide.Containment.Reads.{
  ClaimInput, ClaimDependencies, ActionClaim, newest, attempts_made, latest_attempt,
}
use template_security_incide.Containment.Claim.{claim_containment_action, next_attempt}
use template_security_incide.Containment.Finish.{
  FinishInput, final_status, FinalStatus, is_fenced, ended, finish_containment_action,
}
use template_security_incide.Containment.Effects.{
  ProviderEffectBinding, EffectClaim, claim_provider_effect, FinishEffectInput,
  finish_provider_effect, ReconcileEffectInput, reconcile_provider_effect,
}
use template_security_incide.Containment.Attempts.{Closing}
use template_security_incide.Containment.Steps.{
  Released, ClaimStep, kept, closed, added, KeepsLedger,
}
use template_security_incide.Containment.Claims.{claim-Step}
use template_security_incide.Containment.Live.{is_of}
use template_security_incide.Containment.Ledger.{
  claim_provider_effect-Step, finish_provider_effect-OnLedger, reconcile_provider_effect-OnLedger,
}

-- A call that returned; a call that threw has been rolled back.
pub data Step (db db' : Db) : Type 0 where
  claims :
      (input : ClaimInput) (deps : ClaimDependencies) (answer : ActionClaim)
      → claim_containment_action input deps db ≡ ok (answer, db')
      → Step db db'
  ends :
      (input : FinishInput) (now : ℕ)
      → finish_containment_action input now db ≡ ok (tt, db')
      → Step db db'
  claims_effect :
      (input : ProviderEffectBinding) (answer : EffectClaim)
      → claim_provider_effect input db ≡ ok (answer, db')
      → Step db db'
  ends_effect :
      (input : FinishEffectInput) → finish_provider_effect input db ≡ ok (tt, db') → Step db db'
  reconciles_effect :
      (input : ReconcileEffectInput) (answer : EffectStatus)
      → reconcile_provider_effect input db ≡ ok (answer, db')
      → Step db db'
  others :
      db'.containment_action_attempts ≡ db.containment_action_attempts
      → db'.provider_effect_ledger ≡ db.provider_effect_ledger
      → Step db db'
  sweeps :
      (p : AttemptRow → Bool) (f : AttemptRow → AttemptRow)
      → Closing p f
      → db'.containment_action_attempts ≡ update_rows p f db.containment_action_attempts
      → KeepsLedger db db'
      → Step db db'

pub data History : Db → Db → Type 0 where
  start : {db : Db} → History db db
  next_step : {db mid db' : Db} → History db mid → Step mid db' → History db db'

final_not_executing : (s : FinalStatus) → (final_status s == executing) ≡ false
final_not_executing s = ground arith

fenced-Closing : (input : FinishInput) (now : ℕ) → Closing (is_fenced input now) (ended input now)
fenced-Closing input now a met = record {
  was = (execution_eq_iff a.status executing).0 (ground (arith, met));
  ended = final_not_executing input.status;
  same = (refl, refl, refl);
  number = refl;
}

-- What a step does to the attempts: it ends some of them, or a released action gets its next one.
pub data AttemptsStep (rows : List AttemptRow) : List AttemptRow → Type 0 where
  nothing : AttemptsStep rows rows
  ending :
      (p : AttemptRow → Bool) (f : AttemptRow → AttemptRow)
      → Closing p f
      → AttemptsStep rows (update_rows p f rows)
  adding :
      (input : ClaimInput) (deps : ClaimDependencies) (row : Option AttemptRow)
      (released : List AttemptRow)
      → newest (is_of input deps) rows ≡ row
      → attempts_made row < 6
      → Released input deps rows row released
      → AttemptsStep rows (released ++ next_attempt input deps row ∷ [])

abbrev pub Changes : Db → Db → Type 0
Changes db db' = AttemptsStep db.containment_action_attempts db'.containment_action_attempts

nothing-of :
    (db db' : Db)
    → db'.containment_action_attempts ≡ db.containment_action_attempts
    → Changes db db'
nothing-of db db' same = subst (AttemptsStep db.containment_action_attempts) (sym same) nothing

finish-Changes :
    (input : FinishInput) (now : ℕ) (db db' : Db)
    → finish_containment_action input now db ≡ ok (tt, db')
    → Changes db db' × (db'.provider_effect_ledger ≡ db.provider_effect_ledger)
unfolding finish_containment_action
finish-Changes input now db db' h = read-elim _ _ _ _ h λ h1. throw_if-elim _ _ _ _ _ h1 λ valid h2.
    change_attempt-elim _ _ _ _ _ h2 λ h3.
      let same = change_action-eq-ok _ _ _ _ {u = tt} h3 in
      (
        subst (AttemptsStep db.containment_action_attempts)
            (sym (ap (λ (d : Db). d.containment_action_attempts) same))
            (ending (is_fenced input now) (ended input now) (fenced-Closing input now)),
        ap (λ (d : Db). d.provider_effect_ledger) same,
      )

budget-bound : (n : ℕ) (unsure : Bool) → (n < 3) ⊎ ((unsure ≡ true) × (n < 6)) → n < 6
budget-bound n unsure (inl few) = omega (arith, few)
budget-bound n unsure (inr (h, few)) = few

claim-Changes :
    (input : ClaimInput) (deps : ClaimDependencies) (db : Db) (answer : ActionClaim) (db' : Db)
    → ClaimStep input deps db answer db'
    → Changes db db'
unfolding latest_attempt
claim-Changes input deps db answer db' (kept refused same) = nothing-of db db' same
claim-Changes input deps db answer db' (closed p f refused closing same) =
    subst (AttemptsStep db.containment_action_attempts) (sym same) (ending p f closing)
claim-Changes input deps db answer db'
      (added row mid latest unverified budget prepared released grounds granted same) =
    subst (AttemptsStep db.containment_action_attempts) (sym same) (
      adding input deps row mid.containment_action_attempts latest
        (budget-bound (attempts_made row) _ budget) released)

-- Every step changes the attempts in one of these ways, and keeps the entries of the ledger.
pub step-Changes : (db db' : Db) → Step db db' → Changes db db' × KeepsLedger db db'
step-Changes db db' (claims input deps answer h) =
    let (step, keeps) = claim-Step input deps db db' answer h in
    (claim-Changes input deps db answer db' step, keeps)
step-Changes db db' (ends input now h) =
    let (changes, ledger) = finish-Changes input now db db' h in
    (changes, λ key there. rw ledger there)
step-Changes db db' (claims_effect input answer h) =
    let (on_ledger, authoritative, there, fresh) =
      claim_provider_effect-Step input db db' answer h in
    (nothing-of db db' on_ledger.0, on_ledger.1)
step-Changes db db' (ends_effect input h) =
    let (same, keeps) = finish_provider_effect-OnLedger input db db' {u = tt} h in
    (nothing-of db db' same, keeps)
step-Changes db db' (reconciles_effect input answer h) =
    let (same, keeps) = reconcile_provider_effect-OnLedger input db db' answer h in
    (nothing-of db db' same, keeps)
step-Changes db db' (others attempts ledger) =
    (nothing-of db db' attempts, λ key there. rw ledger there)
step-Changes db db' (sweeps p f closing attempts ledger) = (
  subst (AttemptsStep db.containment_action_attempts) (sym attempts) (ending p f closing),
  ledger,
)
