-- ===== src/Store/ContainmentInversion.antt =====
-- What follows from a statement of an execution having returned.
use template_security_incide.Prelude.{◌≡◌, Bool, false, [], ◌∷◌, ◌++◌, any, update_rows, arith}
use template_security_incide.Store.ContainmentRows.{
  ActionRow, AttemptRow, EffectRow, GatewayAuditRow,
}
use template_security_incide.Store.Rows.{Db}
use template_security_incide.Store.Tx.{Tx, ok, continue, steps}
use template_security_incide.Store.ContainmentWrites.{
  insert_attempt, insert_audit, change_attempt, change_action, change_effect, same_attempt_key,
}

module _ {ℓ} {B : Type 0} {P : Type ℓ} (db : Db) (f : Unit {0} → Tx B) (b : B × Db) where
  pub change_attempt-elim :
      (where_ : AttemptRow → Bool) (set_ : AttemptRow → AttemptRow)
      → continue (change_attempt where_ set_ db) f ≡ ok b
      → (f tt (record db {
        containment_action_attempts = update_rows where_ set_ db.containment_action_attempts;
      })
            ≡ ok b
          → P)
      → P
  unfolding change_attempt steps
  change_attempt-elim where_ set_ h k = k (ground arith)

  pub change_action-elim :
      (where_ : ActionRow → Bool) (set_ : ActionRow → ActionRow)
      → continue (change_action where_ set_ db) f ≡ ok b
      → (f tt (record db { containment_actions = update_rows where_ set_ db.containment_actions })
            ≡ ok b
          → P)
      → P
  unfolding change_action steps
  change_action-elim where_ set_ h k = k (ground arith)

  pub change_effect-elim :
      (where_ : EffectRow → Bool) (set_ : EffectRow → EffectRow)
      → continue (change_effect where_ set_ db) f ≡ ok b
      → (f tt (record db {
        provider_effect_ledger = update_rows where_ set_ db.provider_effect_ledger;
      })
            ≡ ok b
          → P)
      → P
  unfolding change_effect steps
  change_effect-elim where_ set_ h k = k (ground arith)

  pub insert_audit-elim :
      (a : GatewayAuditRow)
      → continue (insert_audit a db) f ≡ ok b
      → (f tt (record db { containment_gateway_audit = db.containment_gateway_audit ++ a ∷ [] })
            ≡ ok b
          → P)
      → P
  unfolding insert_audit steps
  insert_audit-elim a h k = k (ground arith)

  pub insert_attempt-elim :
      (a : AttemptRow)
      → continue (insert_attempt a db) f ≡ ok b
      → (any (same_attempt_key a) db.containment_action_attempts ≡ false
          → f tt
              (record db { containment_action_attempts = db.containment_action_attempts ++ a ∷ [] })
            ≡ ok b
          → P)
      → P
  unfolding insert_attempt steps
  insert_attempt-elim a h k = k (ground arith) (ground arith)

pub change_action-eq-ok :
    (where_ : ActionRow → Bool) (set_ : ActionRow → ActionRow) (db db' : Db) {u : Unit {0}}
    → change_action where_ set_ db ≡ ok (u, db')
    → db' ≡ record db { containment_actions = update_rows where_ set_ db.containment_actions }
unfolding change_action
change_action-eq-ok where_ set_ db db' h = ground arith

pub change_effect-eq-ok :
    (where_ : EffectRow → Bool) (set_ : EffectRow → EffectRow) (db db' : Db) {u : Unit {0}}
    → change_effect where_ set_ db ≡ ok (u, db')
    → db' ≡ record db { provider_effect_ledger = update_rows where_ set_ db.provider_effect_ledger }
unfolding change_effect
change_effect-eq-ok where_ set_ db db' h = ground arith

pub change_attempt-eq-ok :
    (where_ : AttemptRow → Bool) (set_ : AttemptRow → AttemptRow) (db db' : Db) {u : Unit {0}}
    → change_attempt where_ set_ db ≡ ok (u, db')
    → db' ≡ record db {
      containment_action_attempts = update_rows where_ set_ db.containment_action_attempts;
    }
unfolding change_attempt
change_attempt-eq-ok where_ set_ db db' h = ground arith
