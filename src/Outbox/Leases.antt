-- ===== src/Outbox/Leases.antt =====
-- A lease is exclusive: until it ends no other claim gets the row, and no other token settles it.
use template_security_incide.Prelude.{
  ℕ, ◌<◌, String, true, false, List, [], ◌∷◌, ◌≡◌, ◌≢◌, refl, ◌∙◌, sym, any, count_rows,
  update_rows, ◌==◌, nat_eq, string_eq, str_eq_iff, Bool-cases, inl, inr, arith, option_eq,
}
use template_security_incide.Store.Rows.{Db, OutboxRow}
use template_security_incide.Outbox.Claim.{
  ClaimInput, is_claimed, leased, leased_db, claimed_rows, claims,
}
use template_security_incide.Outbox.Settle.{
  FailureInput, fence_lost, is_leased, mark_outbox_published, published, record_outbox_failure,
  update_outbox,
}
use template_security_incide.Outbox.Rows.{
  Distinct, row_is, row_is-update, row_is-absent, update_rows-none, any-where_rows, any-map,
}

pub claims-row_is :
    (input : ClaimInput) (db : Db) (id : String)
    → claims input db id ≡ row_is id (is_claimed input db) db.outbox_events
unfolding claims claimed_rows row_is
claims-row_is input db id =
    any-map (λ o. o.id == id) (leased input.lease_until) _
    ∙ any-where_rows (λ o. o.id == id) (is_claimed input db) db.outbox_events

pub unleased :
    (id : String) (token : ℕ) (rows : List OutboxRow)
    → row_is id (is_leased id token) rows ≡ any (is_leased id token) rows
unfolding row_is any is_leased
unleased id token [] = refl
unleased id token (o ∷ rest) = let ih = unleased id token rest in ground (arith, ih)

-- In an outbox with distinct identifiers, a row that a claim has leased is settled by the token
-- of that lease only: with any other token, markOutboxPublished answers false and
-- recordOutboxFailure `fence_lost`, and neither writes.
pub stale_lease :
    (seed_of : String → ℕ) (input : ClaimInput) (db : Db) (f : FailureInput) (at : ℕ)
    → Distinct db.outbox_events
    → claims input db f.id ≡ true
    → f.lease_token ≢ input.lease_until
    → (mark_outbox_published f.id f.lease_token at (leased_db input db)
        ≡ (false, leased_db input db))
      × (record_outbox_failure seed_of f (leased_db input db) ≡ (fence_lost, leased_db input db))
unfolding mark_outbox_published record_outbox_failure leased_db update_outbox
stale_lease seed_of input db f at distinct claimed other =
    let gone : any (is_leased f.id f.lease_token)
          (update_rows (is_claimed input db) (leased input.lease_until) db.outbox_events)
        ≡ false =
      sym (unleased f.id f.lease_token _)
      ∙ row_is-update f.id (is_claimed input db) (is_leased f.id f.lease_token)
          (leased input.lease_until) db.outbox_events distinct (λ o. refl)
          (λ o. unfold is_leased in ground arith) (sym (claims-row_is input db f.id) ∙ claimed) in
    let (same, count, first) =
      update_rows-none (is_leased f.id f.lease_token) (published at) _ gone in
    (simp (same, count), ground (arith, first))

-- In an outbox with distinct identifiers, a row that was claimed is not claimed again by a claim
-- made before its lease ends.
pub claims_disjoint :
    (first second : ClaimInput) (db : Db) (id : String)
    → Distinct db.outbox_events
    → second.now < first.lease_until
    → claims first db id ≡ true
    → claims second (leased_db first db) id ≡ false
unfolding leased_db
claims_disjoint first second db id distinct before_ claimed =
    claims-row_is second (leased_db first db) id
    ∙ row_is-update id (is_claimed first db) (is_claimed second (leased_db first db))
        (leased first.lease_until) db.outbox_events distinct (λ o. refl)
        (λ o. unfold is_claimed in ground arith) (sym (claims-row_is first db id) ∙ claimed)

leased_once :
    (id : String) (token : ℕ) (rows : List OutboxRow)
    → Distinct rows
    → any (is_leased id token) rows ≡ true
    → count_rows (is_leased id token) rows ≡ 1
unfolding any count_rows Distinct
leased_once id token [] distinct h = cc
leased_once id token (o ∷ rest) distinct h = elim (Bool-cases (is_leased id token o)) [
  | inl held ↦
      let same : o.id ≡ id = (str_eq_iff o.id id).0 (unfold is_leased in ground arith) in
      let none_ = sym (unleased id token rest) ∙ row_is-absent id _ rest (rw (← same) distinct.0) in
      let zero_ = (update_rows-none (is_leased id token) (λ r. r) rest none_).1 in
      ground (arith, held, zero_)
  | inr other ↦ let ih = leased_once id token rest distinct.1 in ground (arith, ih, other)
]

-- The holder of a lease publishes its row.
pub mark_outbox_published-held :
    (id : String) (token at : ℕ) (db : Db)
    → Distinct db.outbox_events
    → any (is_leased id token) db.outbox_events ≡ true
    → (mark_outbox_published id token at db).0 ≡ true
unfolding mark_outbox_published update_outbox
mark_outbox_published-held id token at db distinct held =
    let one = leased_once id token db.outbox_events distinct held in rw one refl

-- In an outbox with distinct identifiers, a row that markOutboxPublished has marked is not
-- claimed from the database it leaves.
pub published_not_claimed :
    (id : String) (token at : ℕ) (input : ClaimInput) (db : Db) {db' : Db}
    → Distinct db.outbox_events
    → mark_outbox_published id token at db ≡ (true, db')
    → claims input db' id ≡ false
unfolding mark_outbox_published update_outbox
published_not_claimed id token at input db {db'} distinct h =
    let held : any (is_leased id token) db.outbox_events ≡ true =
      elim (Bool-cases (any (is_leased id token) db.outbox_events)) [
        | inl some_ ↦ some_
        | inr none_ ↦
            let gone = (update_rows-none (is_leased id token) (published at) _ none_).1 in
            ground (arith, gone)
      ] in
    let settled =
      row_is-update id (is_leased id token) (is_claimed input db') (published at) db.outbox_events
        distinct (λ o. refl) (λ o. unfold is_claimed in ground arith)
        (unleased id token _ ∙ held) in
    claims-row_is input db' id ∙ ground (arith, settled)
