-- ===== src/Store/Writes.antt =====
-- The statements that several operations share, with the constraints and triggers of the schema:
-- a violated key is CONFLICT, any other constraint STORAGE_UNAVAILABLE (`toStorageError`).
use template_security_incide.Prelude.{
  String, Bool, true, false, not, ◌&&◌, ◌||◌, Option, none, some, [], ◌∷◌, ◌++◌, any, ltb, leb,
  ◌==◌, nat_eq, string_eq, put, if◌then◌else◌,
}
use template_security_incide.Domain.Errors.{conflict, storage_unavailable, domain_error}
use template_security_incide.Store.Rows.{Db, IncidentRow, TimelineRow, OutboxRow}
use template_security_incide.Store.Tx.{Tx, ok, err}

-- SELECT … FROM incidents WHERE tenant_id = ? AND id = ?
unfoldable pub incident_at : Db → String → String → Option IncidentRow
incident_at db tenant_id id = elim (db.incidents id) [
  | none ↦ none
  | some row ↦ if row.tenant_id == tenant_id then some row else none
]

abbrev pub has_incident : Db → String → String → Bool
has_incident db tenant_id id = elim (incident_at db tenant_id id) [ none ↦ false | some _ ↦ true ]

-- CHECK(updated_at >= created_at), CHECK(closed_at IS NULL OR closed_at >= created_at)
abbrev pub times_in_order : IncidentRow → Bool
times_in_order row =
    leb row.created_at row.updated_at
    && elim row.closed_at [ none ↦ true | some t ↦ leb row.created_at t ]

-- UPDATE incidents SET … WHERE tenant_id = ? AND id = ? AND … RETURNING *
-- with the trigger incidents_updated_at_monotonic. The row answered is the new one.
unfoldable pub update_incident :
    String → String → (IncidentRow → Bool) → (IncidentRow → IncidentRow) → Tx (Option IncidentRow)
unfolding incident_at
update_incident tenant_id id where_ set_ db = elim (incident_at db tenant_id id) [
  | none ↦ ok (none, db)
  | some old ↦
      if not (where_ old)
      then ok (none, db)
      else if ltb (set_ old).updated_at old.updated_at
      then err (domain_error storage_unavailable)
      else if not (times_in_order (set_ old))
      then err (domain_error storage_unavailable)
      else ok (some (set_ old), record db { incidents = put id (set_ old) db.incidents })
]

-- INSERT INTO timeline_events, with the trigger timeline_occurred_at_monotonic.
unfoldable pub insert_timeline : TimelineRow → Tx (Unit {0})
unfolding incident_at any
insert_timeline e db =
    if any (λ r. r.incident_id == e.incident_id && ltb e.occurred_at r.occurred_at)
      db.timeline_events
    then err (domain_error storage_unavailable)
    else if any (λ r. r.id == e.id || (r.incident_id == e.incident_id && r.sequence == e.sequence))
        db.timeline_events
    then err (domain_error conflict)
    else if not (has_incident db e.tenant_id e.incident_id)
    then err (domain_error storage_unavailable)
    else ok (tt, record db { timeline_events = db.timeline_events ++ e ∷ [] })

-- INSERT INTO outbox_events
unfoldable pub insert_outbox : OutboxRow → Tx (Unit {0})
unfolding incident_at any
insert_outbox e db =
    if any (λ r. r.id == e.id) db.outbox_events
    then err (domain_error conflict)
    else if not (has_incident db e.tenant_id e.incident_id)
    then err (domain_error storage_unavailable)
    else ok (tt, record db { outbox_events = db.outbox_events ++ e ∷ [] })
