-- ===== src/Lifecycle/Arrivals.antt =====
-- A delivery keeps the events of every incident gapless, and a second delivery of an alert adds nothing.
use template_security_incide.Prelude.{
  some-injective, String, ◌≡◌, refl, sym, ap, ◌∙◌, subst, ◌⊎◌, inl, inr, Bool, false, some, [], ◌∷◌,
  ◌++◌, ◌==◌, string_eq, str_eq_iff, put, put_lem, Bool-cases,
}
use template_security_incide.Schemas.Common.{opaque_id}
use template_security_incide.Schemas.Alert.{Alert, parse_alert}
use template_security_incide.Store.Rows.{Db, IncidentRow}
use template_security_incide.Incidents.Create.{
  OperationDependencies, Creation, new_incident, create_incident_from_alert_result,
}
use template_security_incide.Lifecycle.Gapless.{
  Gapless, sequences_of, up_to, sequences_of-append_same, sequences_of-append_other,
}
use template_security_incide.Lifecycle.Created.{NoHooks, Created, create_incident-Delivered}

up_to_one : up_to 1 ≡ 1 ∷ []
unfolding up_to
up_to_one = refl

module _ {is_ip : String → Bool} {deps : OperationDependencies} {alert : Alert}
    {creation : Creation} {db db' : Db} (created : Created is_ip deps alert creation db db')
    (canonical : opaque_id deps.incident_id ≡ some deps.incident_id) where
  entry_of : created.appended.entry.incident_id ≡ deps.incident_id
  entry_of =
      some-injective
        (sym created.appended.of_incident ∙ ap opaque_id created.of_incident ∙ canonical)

  incidents_after :
      db'.incidents ≡ put deps.incident_id (new_incident is_ip deps alert) db.incidents
  incidents_after = ap (λ (d : Db). d.incidents) created.appended.written ∙ created.incidents

  events_after : db'.timeline_events ≡ db.timeline_events ++ created.appended.entry ∷ []
  events_after =
      ap (λ (d : Db). d.timeline_events) created.appended.written
      ∙ ap (λ events. events ++ created.appended.entry ∷ []) created.timeline

  -- The incident of the delivery, or one that was there.
  incident_after :
      (id : String) (row : IncidentRow)
      → db'.incidents id ≡ some row
      → ((deps.incident_id ≡ id) × (row ≡ new_incident is_ip deps alert))
        ⊎ (((deps.incident_id == id) ≡ false) × (db.incidents id ≡ some row))
  incident_after id row found = elim (Bool-cases (deps.incident_id == id)) [
    | inl same ↦ inl (
      (str_eq_iff deps.incident_id id).0 same,
      some-injective (sym found ∙ ap (λ t. t id) incidents_after ∙ rw (put_lem, same) refl),
    )
    | inr other ↦
        inr (other, sym (ap (λ t. t id) incidents_after ∙ rw (put_lem, other) refl) ∙ found)
  ]

  Created-Gapless : sequences_of deps.incident_id db.timeline_events ≡ [] → Gapless db → Gapless db'
  Created-Gapless unheard good = record {
    canonical = λ id row found. elim (incident_after id row found) [
      | inl (same, is_new) ↦ rw (← same) canonical
      | inr (other, there) ↦ good.canonical id row there
    ];
    numbered = λ id row found. elim (incident_after id row found) [
      | inl (same, is_new) ↦
          let number : created.appended.entry.sequence ≡ 1 =
            created.appended.in_sequence ∙ created.first in
          let events : sequences_of deps.incident_id db'.timeline_events ≡ 1 ∷ [] =
            ap (sequences_of deps.incident_id) events_after
            ∙ sequences_of-append_same deps.incident_id db.timeline_events created.appended.entry
                entry_of
            ∙ rw (unheard, number) refl in
          subst (λ i. sequences_of i db'.timeline_events ≡ up_to row.timeline_sequence) same
            (events ∙ sym (ap (λ (r : IncidentRow). up_to r.timeline_sequence) is_new ∙ up_to_one))
      | inr (other, there) ↦
          ap (sequences_of id) events_after
          ∙ sequences_of-append_other id db.timeline_events created.appended.entry
              (rw entry_of other)
          ∙ good.numbered id row there
    ];
  }

-- A delivery without hooks, of an alert with a canonical new identifier, keeps the events of every
-- incident numbered without a gap, where the new identifier has no events yet.
pub create_incident-Gapless :
    (is_ip : String → Bool) (deps : OperationDependencies) (untrusted alert : Alert) (db : Db)
    → NoHooks deps
    → parse_alert is_ip untrusted ≡ some alert
    → opaque_id deps.incident_id ≡ some deps.incident_id
    → sequences_of deps.incident_id db.timeline_events ≡ []
    → Gapless db
    → Gapless (create_incident_from_alert_result is_ip deps untrusted db).1
create_incident-Gapless is_ip deps untrusted alert db no_hooks parsed canonical unheard good =
    elim (create_incident-Delivered is_ip deps untrusted alert db no_hooks parsed) [
      | inl same ↦ subst Gapless (sym same) good
      | inr (creation, answered, new, created) ↦ Created-Gapless created canonical unheard good
    ]
