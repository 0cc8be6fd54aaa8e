-- ===== src/Outbox/Due.antt =====
-- Which rows a claim gets, in terms of the columns of the outbox and of its dead letters.
use template_security_incide.Prelude.{
  ℕ, ◌≤◌, String, ◌≡◌, ◌≢◌, refl, ◌∙◌, ◌↔◌, inl, inr, Bool, true, false, ◌&&◌, none, List, [], ◌∷◌,
  any, count_rows, ◌==◌, nat_eq, string_eq, option_eq, str_eq_iff, option_beq_iff, Bool-cases, ◌∈◌,
  any-of, any-none, any-false, arith,
}
use template_security_incide.Store.Rows.{Db, OutboxRow, DeadLetterRow}
use template_security_incide.Incidents.Start.{unresolved}
use template_security_incide.Outbox.Claim.{
  ClaimInput, claims, is_claimable, has_unresolved_outbox_dead_letter,
}
use template_security_incide.Outbox.Rows.{row_is}
use template_security_incide.Outbox.Selection.{claims-claimable}
use template_security_incide.Outbox.Completeness.{claims-all_claimable}

-- Not published, available at this instant, and without a dead letter that nobody has resolved.
pub record Due (now : ℕ) (db : Db) (o : OutboxRow) : Type 0 where
  pub unpublished : o.published_at ≡ none
  pub available : o.available_at ≤ now
  pub alive :
      (d : DeadLetterRow)
      → d ∈ db.dead_letter_events
      → d.source_outbox_id ≡ o.id
      → d.resolved_at ≢ none

-- A row of the outbox with this identifier is due.
abbrev pub DueRow : ℕ → Db → String → Type 0
DueRow now db id = (o : OutboxRow) × (o ∈ db.outbox_events) × (o.id ≡ id) × Due now db o

claimable-Due : (now : ℕ) (db : Db) (o : OutboxRow) → is_claimable now db o ≡ true → Due now db o
unfolding is_claimable has_unresolved_outbox_dead_letter
claimable-Due now db o h = record {
  unpublished = (option_beq_iff o.published_at none).0 (ground (arith, h));
  available = ground (arith, h);
  alive = λ d there of_o open_.
      let quiet : any (unresolved o.id) db.dead_letter_events ≡ false = ground (arith, h) in
      let missed = any-none (unresolved o.id) db.dead_letter_events d quiet there in
      let source = (str_eq_iff d.source_outbox_id o.id).1 of_o in
      let still = (option_beq_iff d.resolved_at none).1 open_ in
      ground (arith, missed, source, still);
}

Due-claimable : (now : ℕ) (db : Db) (o : OutboxRow) → Due now db o → is_claimable now db o ≡ true
unfolding is_claimable has_unresolved_outbox_dead_letter
Due-claimable now db o due =
    let quiet : any (unresolved o.id) db.dead_letter_events ≡ false =
      any-false (unresolved o.id) db.dead_letter_events λ d there.
        elim (Bool-cases (unresolved o.id d)) [
          | inr other ↦ other
          | inl met ↦
              elim (due.alive d there ((str_eq_iff d.source_outbox_id o.id).0 (ground (arith, met)))
                ((option_beq_iff d.resolved_at none).0 (ground (arith, met)))) [ ]
        ] in
    let fresh = (option_beq_iff o.published_at none).1 due.unpublished in
    ground (arith, quiet, fresh, due.available)

row_is-member :
    (id : String) (p : OutboxRow → Bool) (rows : List OutboxRow)
    → row_is id p rows ≡ true
    → (o : OutboxRow) × (o ∈ rows) × (o.id ≡ id) × (p o ≡ true)
unfolding row_is any
row_is-member id p [] h = cc
row_is-member id p (o ∷ rest) h = elim (Bool-cases (o.id == id && p o)) [
  | inl found ↦ (o, inl refl, (str_eq_iff o.id id).0 (ground (arith, found)), ground (arith, found))
  | inr other ↦
      let (x, there, same, met) = row_is-member id p rest (ground (arith, h, other)) in
      (x, inr there, same, met)
]

-- A claim gets only rows of the outbox that are due at its instant.
pub claims_sound :
    (input : ClaimInput) (db : Db) (id : String)
    → claims input db id ≡ true
    → DueRow input.now db id
claims_sound input db id claimed =
    let (o, there, same, able) =
      row_is-member id (is_claimable input.now db) db.outbox_events
        (claims-claimable input db id claimed) in
    (o, there, same, claimable-Due input.now db o able)

-- When the limit leaves room for every row that may be claimed, a claim gets exactly the rows of the
-- outbox that are due at its instant.
pub claims_exact :
    (input : ClaimInput) (db : Db) (id : String)
    → count_rows (is_claimable input.now db) db.outbox_events ≤ input.limit
    → (claims input db id ≡ true) ↔ DueRow input.now db id
unfolding row_is
claims_exact input db id room = (
  claims_sound input db id,
  λ due.
      let (o, there, same, ready) = due in
      let able = Due-claimable input.now db o ready in
      let named = (str_eq_iff o.id id).1 same in
      claims-all_claimable input db id room
      ∙ any-of (λ r. r.id == id && is_claimable input.now db r) db.outbox_events o there
          (ground (arith, able, named)),
)
