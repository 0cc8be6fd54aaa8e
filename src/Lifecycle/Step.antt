-- ===== src/Lifecycle/Step.antt =====
-- The abstract step of an incident: it goes along an edge of the transition table, its version and
-- its sequence grow by one, and one event with the new sequence goes to its timeline.
use template_security_incide.Prelude.{◌+◌, ◌≤◌, String, ◌≡◌, true, some, [], ◌∷◌, ◌++◌, put, ◌∙◌}
use template_security_incide.Schemas.Common.{opaque_id}
use template_security_incide.Schemas.Events.{TimelineWrite, parse_timeline_write}
use template_security_incide.Domain.IncidentState.{can_transition}
use template_security_incide.Store.Rows.{Db, IncidentRow, TimelineRow, OutboxRow}
use template_security_incide.Store.Tx.{ok, continue-elim, expect-elim}
use template_security_incide.Store.Writes.{has_incident}
use template_security_incide.Store.Inversion.{insert_timeline-eq-ok, insert_outbox-eq-ok}
use template_security_incide.Incidents.Events.{
  EventInput, timeline_row, outbox_row, insert_timeline_and_outbox,
}
use native.Mathlib.Omega.{arith}

-- What insertTimelineAndOutbox has done when it returns.
pub record Appends (input : EventInput) (db db' : Db) : Type 0 where
  pub entry : TimelineRow
  pub message : OutboxRow
  pub of_incident : opaque_id input.incident_id ≡ some entry.incident_id
  pub in_sequence : entry.sequence ≡ input.sequence
  pub exists : has_incident db entry.tenant_id entry.incident_id ≡ true
  pub written : db' ≡ record db {
    timeline_events = db.timeline_events ++ entry ∷ [];
    outbox_events = db.outbox_events ++ message ∷ [];
  }

pub parse_timeline_write-fields :
    (w : TimelineWrite) {t : TimelineWrite}
    → parse_timeline_write w ≡ some t
    → (opaque_id w.incident_id ≡ some t.incident_id) × (t.sequence ≡ w.sequence)
unfolding parse_timeline_write
parse_timeline_write-fields w h = ground arith

pub insert_timeline_and_outbox-Appends :
    (input : EventInput) (db : Db) {db' : Db} {u : Unit {0}}
    → insert_timeline_and_outbox input db ≡ ok (u, db')
    → Appends input db db'
unfolding insert_timeline_and_outbox
insert_timeline_and_outbox-Appends input db h = expect-elim _ _ _ _ _ h λ t parsed h1.
    expect-elim _ _ _ _ _ h1 λ o sent h2. continue-elim _ _ _ h2 λ u d written h3.
      let (q3, exists) = insert_timeline-eq-ok _ _ written in
      let q4 = insert_outbox-eq-ok _ _ h3 in
      let (at, seq) = parse_timeline_write-fields _ parsed in
      record {
        entry = timeline_row t o.payload;
        message = outbox_row o;
        of_incident = at;
        in_sequence = seq;
        exists = exists;
        written = cc;
      }

-- The row goes along an edge of the transition table, and its version grows by one.
abbrev pub Moves : IncidentRow → IncidentRow → Type 0
Moves old new = (can_transition old.status new.status ≡ true) × (new.version ≡ old.version + 1)

-- The row keeps its status and its version.
abbrev pub Stays : IncidentRow → IncidentRow → Type 0
Stays old new = (new.status ≡ old.status) × (new.version ≡ old.version)

-- One operation on one incident. The tables that only some operations write are left open.
pub record Extends (Change : IncidentRow → IncidentRow → Type 0) (tenant_id id : String)
    (db db' : Db) : Type 0 where
  pub old : IncidentRow
  pub new : IncidentRow
  pub entry : TimelineRow
  pub found : db.incidents id ≡ some old
  pub of_tenant : old.tenant_id ≡ tenant_id
  pub same_tenant : new.tenant_id ≡ old.tenant_id
  pub changes : Change old new
  pub next_sequence : new.timeline_sequence ≡ old.timeline_sequence + 1
  pub later : old.updated_at ≤ new.updated_at
  pub of_incident : opaque_id id ≡ some entry.incident_id
  pub in_sequence : entry.sequence ≡ new.timeline_sequence
  pub incidents_written : db'.incidents ≡ put id new db.incidents
  pub timeline_written : db'.timeline_events ≡ db.timeline_events ++ entry ∷ []

abbrev pub Advances : String → String → Db → Db → Type 0
Advances = Extends Moves

-- A new row, and the event behind it.
pub Advances-of-Appends :
    {tenant_id id : String} {input : EventInput} {db db1 db2 : Db} (old new : IncidentRow)
    → db.incidents id ≡ some old
    → old.tenant_id ≡ tenant_id
    → old.updated_at ≤ new.updated_at
    → can_transition old.status new.status ≡ true
    → (new.tenant_id ≡ old.tenant_id)
      × (new.version ≡ old.version + 1)
      × (new.timeline_sequence ≡ old.timeline_sequence + 1)
    → (db1.incidents ≡ put id new db.incidents) × (db1.timeline_events ≡ db.timeline_events)
    → (input.incident_id ≡ id) × (input.sequence ≡ new.timeline_sequence)
    → Appends input db1 db2
    → Advances tenant_id id db db2
Advances-of-Appends old new found tenant later moves shape written about appends = record {
  old = old;
  new = new;
  entry = appends.entry;
  found = found;
  of_tenant = tenant;
  same_tenant = shape.0;
  changes = (moves, shape.1);
  next_sequence = shape.2;
  later = later;
  of_incident = rw (← about.0) appends.of_incident;
  in_sequence = appends.in_sequence ∙ about.1;
  incidents_written = cc (appends.written, written.0);
  timeline_written = cc (appends.written, written.1);
}
