-- ===== src/Outbox/Selection.antt =====
-- What the inner SELECT of a claim chooses.
use template_security_incide.Prelude.{
  ℕ, zero, suc, String, Bool, true, false, ◌&&◌, ◌||◌, List, [], ◌∷◌, ◌≡◌, refl, ◌∙◌, sym, any, map,
  take, ◌==◌, string_eq, str_eq_iff, Bool-cases, inl, inr, arith, ap,
}
use template_security_incide.Store.Rows.{Db, OutboxRow}
use template_security_incide.Outbox.Claim.{
  ClaimInput, is_claimed, claims, batch, is_claimable, ordered, insert_ordered,
  has_unresolved_outbox_dead_letter,
}
use template_security_incide.Outbox.Rows.{row_is, any-where_rows}
use template_security_incide.Outbox.Leases.{claims-row_is}

pub any-take :
    (r : OutboxRow → Bool) (n : ℕ) (rows : List OutboxRow)
    → any r (take n rows) ≡ true
    → any r rows ≡ true
unfolding any
any-take r zero rows h = cc
any-take r (suc n) [] h = cc
any-take r (suc n) (o ∷ rest) h = let ih = any-take r n rest in ground (arith, ih)

any-insert_ordered :
    (r : OutboxRow → Bool) (o : OutboxRow) (rows : List OutboxRow)
    → any r (insert_ordered o rows) ≡ (r o || any r rows)
unfolding any insert_ordered
any-insert_ordered r o [] = refl
any-insert_ordered r o (p ∷ rest) = let ih = any-insert_ordered r o rest in ground (arith, ih)

pub any-ordered : (r : OutboxRow → Bool) (rows : List OutboxRow) → any r (ordered rows) ≡ any r rows
unfolding any ordered
any-ordered r [] = refl
any-ordered r (o ∷ rest) =
    any-insert_ordered r o (ordered rest) ∙ ap (λ b. r o || b) (any-ordered r rest)

pub any-ids :
    (id : String) (rows : List OutboxRow)
    → any (λ i. i == id) (map (λ o. o.id) rows) ≡ any (λ o. o.id == id) rows
unfolding any
any-ids id [] = refl
any-ids id (o ∷ rest) = let ih = any-ids id rest in ground (arith, ih)

pub is_claimed-is_claimable :
    (input : ClaimInput) (db : Db) (o : OutboxRow)
    → is_claimed input db o ≡ true
    → row_is o.id (is_claimable input.now db) db.outbox_events ≡ true
unfolding is_claimed batch row_is
is_claimed-is_claimable input db o h =
    let listed : any (λ id. id == o.id) (batch input db) ≡ true = ground arith in
    sym (any-where_rows (λ p. p.id == o.id) (is_claimable input.now db) db.outbox_events)
    ∙ sym (any-ordered (λ p. p.id == o.id) _)
    ∙ any-take (λ p. p.id == o.id) input.limit _ (sym (any-ids o.id _) ∙ listed)

row_is-alive :
    (now : ℕ) (db : Db) (id : String) (rows : List OutboxRow)
    → row_is id (is_claimable now db) rows ≡ true
    → has_unresolved_outbox_dead_letter id db ≡ false
unfolding row_is any is_claimable
row_is-alive now db id [] h = cc
row_is-alive now db id (o ∷ rest) h = elim (Bool-cases (o.id == id && is_claimable now db o)) [
  | inl found ↦
      let same : (o.id == id) ≡ true = ground arith in
      rw (← (str_eq_iff o.id id).0 same) (ground arith)
  | inr other ↦ row_is-alive now db id rest (ground arith)
]

row_is-none :
    (id : String) (p : OutboxRow → Bool) (rows : List OutboxRow)
    → ((o : OutboxRow) → o.id ≡ id → p o ≡ false)
    → row_is id p rows ≡ false
unfolding row_is any
row_is-none id p [] h = refl
row_is-none id p (o ∷ rest) h = elim (Bool-cases (o.id == id)) [
  | inl found ↦
      let fails = h o ((str_eq_iff o.id id).0 found) in
      let ih = row_is-none id p rest h in ground (arith, fails, ih)
  | inr other ↦ let ih = row_is-none id p rest h in ground (arith, ih)
]

is_claimed-alive :
    (input : ClaimInput) (db : Db) (o : OutboxRow)
    → has_unresolved_outbox_dead_letter o.id db ≡ true
    → is_claimed input db o ≡ false
is_claimed-alive input db o dead = elim (Bool-cases (is_claimed input db o)) [
  | inl claimed ↦
      let alive = row_is-alive input.now db o.id _ (is_claimed-is_claimable input db o claimed) in
      cc
  | inr other ↦ other
]

-- No claim gets a row with an unresolved dead letter.
pub dead_letter_not_claimed :
    (input : ClaimInput) (db : Db) (id : String)
    → has_unresolved_outbox_dead_letter id db ≡ true
    → claims input db id ≡ false
dead_letter_not_claimed input db id dead =
    claims-row_is input db id
    ∙ row_is-none id (is_claimed input db) db.outbox_events
        λ o same. is_claimed-alive input db o (rw same dead)

row_is-both :
    (id : String) (input : ClaimInput) (db : Db) (rows : List OutboxRow)
    → row_is id (is_claimed input db) rows ≡ true
    → row_is id (is_claimable input.now db) db.outbox_events ≡ true
unfolding row_is any
row_is-both id input db [] h = cc
row_is-both id input db (o ∷ rest) h = elim (Bool-cases (o.id == id && is_claimed input db o)) [
  | inl found ↦
      let same : (o.id == id) ≡ true = ground arith in
      let claimed : is_claimed input db o ≡ true = ground arith in
      rw (← (str_eq_iff o.id id).0 same) (is_claimed-is_claimable input db o claimed)
  | inr other ↦ row_is-both id input db rest (ground arith)
]

-- A claim gets only rows that are unpublished, due at its instant, and without an unresolved dead
-- letter.
pub claims-claimable :
    (input : ClaimInput) (db : Db) (id : String)
    → claims input db id ≡ true
    → row_is id (is_claimable input.now db) db.outbox_events ≡ true
claims-claimable input db id claimed =
    row_is-both id input db db.outbox_events (sym (claims-row_is input db id) ∙ claimed)
