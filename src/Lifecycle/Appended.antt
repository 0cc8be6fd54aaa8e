-- ===== src/Lifecycle/Appended.antt =====
-- An appended event leaves its incident's status and version as they are.
use template_security_incide.Prelude.{ℕ, some, ◌≡◌, String, refl}
use template_security_incide.Schemas.Events.{TimelineWrite}
use template_security_incide.Store.Rows.{Db}
use template_security_incide.Store.Tx.{ok, continue-elim, expect-elim, pure-eq-ok}
use template_security_incide.Store.Inversion.{change-elim, insert_timeline-eq-ok}
use template_security_incide.Incidents.Timeline.{
  AppendInput, parse_append_input, append_timeline_event, numbered,
}
use template_security_incide.Incidents.Events.{timeline_row}
use template_security_incide.Lifecycle.Step.{Extends, Stays, parse_timeline_write-fields}

-- An append that returns has parsed its input, and is a step of that incident which keeps status
-- and version and gives the event the next sequence number.
pub append_timeline_event-Extends :
    (input : AppendInput) (timeline_id : String) (occurred_at : ℕ) (db : Db) {db' : Db}
    {event : TimelineWrite}
    → append_timeline_event input timeline_id occurred_at db ≡ ok (event, db')
    → (parsed : AppendInput) × (parse_append_input input ≡ some parsed)
      × Extends Stays parsed.tenant_id parsed.incident_id db db'
unfolding append_timeline_event
append_timeline_event-Extends input timeline_id occurred_at db h =
    expect-elim _ _ _ _ _ h λ parsed valid h1.
      change-elim _ _ _ _ _ _ _ _ h1 λ old found tenant accepted later h2.
        expect-elim _ _ _ _ _ h2 λ event read_ h3. continue-elim _ _ _ h3 λ u d written h4.
          let kept = (pure-eq-ok _ _ h4).1 in
          let (at, seq) = parse_timeline_write-fields _ read_ in
          let (q, exists) = insert_timeline-eq-ok _ _ written in
          (
            parsed,
            valid,
            record {
              old = old;
              new = numbered occurred_at old;
              entry = timeline_row event event.payload;
              found = found;
              of_tenant = tenant;
              same_tenant = refl;
              changes = (refl, refl);
              next_sequence = refl;
              later = later;
              of_incident = at;
              in_sequence = seq;
              incidents_written = cc (kept, q);
              timeline_written = cc (kept, q);
            },
          )
