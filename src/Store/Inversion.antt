-- ===== src/Store/Inversion.antt =====
-- What follows from a statement of a transaction having returned.
use template_security_incide.Prelude.{
  ◌≤◌, String, ◌≡◌, Bool, true, Option, none, some, [], ◌∷◌, ◌++◌, string_eq, str_eq_iff, put,
  Bool-cases, Option-cases, inl, inr, arith,
}
use template_security_incide.Domain.Errors.{DomainErrorCode}
use template_security_incide.Store.Rows.{Db, IncidentRow, TimelineRow, OutboxRow}
use template_security_incide.Store.Tx.{Tx, ok, continue, expect, steps}
use template_security_incide.Store.Writes.{
  incident_at, has_incident, update_incident, insert_timeline, insert_outbox,
}

pub incident_at-eq-some :
    (db : Db) (tenant_id id : String) {row : IncidentRow}
    → incident_at db tenant_id id ≡ some row
    → (db.incidents id ≡ some row) × (row.tenant_id ≡ tenant_id)
unfolding incident_at
incident_at-eq-some db tenant_id id {row} h =
    (ground arith, ground (arith, str_eq_iff row.tenant_id tenant_id))

-- UPDATE … RETURNING *: no row came back, or the rest of the body runs on the database with the new
-- row in the place of the old one.
module _ {ℓ} {B : Type 0} {P : Type ℓ} where
  pub update-elim :
      (tenant_id id : String) (where_ : IncidentRow → Bool) (set_ : IncidentRow → IncidentRow)
      (db : Db) (f : Option IncidentRow → Tx B) (b : B × Db)
      → continue (update_incident tenant_id id where_ set_ db) f ≡ ok b
      → (f none db ≡ ok b → P)
      → ((old : IncidentRow)
          → db.incidents id ≡ some old
          → old.tenant_id ≡ tenant_id
          → where_ old ≡ true
          → old.updated_at ≤ (set_ old).updated_at
          → f (some (set_ old)) (record db { incidents = put id (set_ old) db.incidents }) ≡ ok b
          → P)
      → P
  unfolding update_incident steps
  update-elim tenant_id id where_ set_ db f b h missed k =
      elim (Option-cases (incident_at db tenant_id id)) [
        | inl missing ↦ missed (ground arith)
        | inr (old, found) ↦
            let (at, same) = incident_at-eq-some db tenant_id id found in
            elim (Bool-cases (where_ old)) [
              | inl accepted ↦ k old at same accepted (ground arith) (ground arith)
              | inr refused ↦ missed (ground arith)
            ]
      ]

  -- The same where no row is an error.
  pub change-elim :
      (tenant_id id : String) (where_ : IncidentRow → Bool) (set_ : IncidentRow → IncidentRow)
      (db : Db) (c : Db → DomainErrorCode) (f : IncidentRow → Tx B) (b : B × Db)
      → continue
          (update_incident tenant_id id where_ set_ db)
          (λ row d. continue (expect row (c d) d) f)
        ≡ ok b
      → ((old : IncidentRow)
          → db.incidents id ≡ some old
          → old.tenant_id ≡ tenant_id
          → where_ old ≡ true
          → old.updated_at ≤ (set_ old).updated_at
          → f (set_ old) (record db { incidents = put id (set_ old) db.incidents }) ≡ ok b
          → P)
      → P
  unfolding steps
  change-elim tenant_id id where_ set_ db c f b h k =
      update-elim tenant_id id where_ set_ db _ b h (λ e. cc) k

pub insert_timeline-eq-ok :
    (e : TimelineRow) (db : Db) {u : Unit {0}} {db' : Db}
    → insert_timeline e db ≡ ok (u, db')
    → (db' ≡ record db { timeline_events = db.timeline_events ++ e ∷ [] })
      × (has_incident db e.tenant_id e.incident_id ≡ true)
unfolding insert_timeline
insert_timeline-eq-ok e db h = ground arith

pub insert_outbox-eq-ok :
    (e : OutboxRow) (db : Db) {u : Unit {0}} {db' : Db}
    → insert_outbox e db ≡ ok (u, db')
    → db' ≡ record db { outbox_events = db.outbox_events ++ e ∷ [] }
unfolding insert_outbox
insert_outbox-eq-ok e db h = ground arith
