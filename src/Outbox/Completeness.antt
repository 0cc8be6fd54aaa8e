-- ===== src/Outbox/Completeness.antt =====
-- A batch that has room for every row that may be claimed.
use template_security_incide.Prelude.{
  ℕ, zero, suc, ◌≤◌, String, Bool, true, ◌&&◌, List, [], ◌∷◌, ◌≡◌, refl, ◌∙◌, sym, ap, any, take,
  length, where_rows, count_rows, ◌==◌, string_eq, str_eq_iff, Bool-cases, inl, inr, arith,
}
use template_security_incide.Store.Rows.{Db, OutboxRow}
use template_security_incide.Outbox.Claim.{
  ClaimInput, is_claimed, claims, batch, is_claimable, ordered, insert_ordered,
}
use template_security_incide.Outbox.Rows.{row_is, any-where_rows}
use template_security_incide.Outbox.Leases.{claims-row_is}
use template_security_incide.Outbox.Selection.{any-ordered, any-ids, claims-claimable}

take-all : (n : ℕ) (rows : List OutboxRow) → length rows ≤ n → take n rows ≡ rows
take-all zero [] h = refl
take-all zero (o ∷ rest) h = ground arith
take-all (suc n) [] h = refl
take-all (suc n) (o ∷ rest) h = ap (λ r. o ∷ r) (take-all n rest (omega arith))

length-insert_ordered :
    (o : OutboxRow) (rows : List OutboxRow) → length (insert_ordered o rows) ≡ suc (length rows)
unfolding insert_ordered
length-insert_ordered o [] = refl
length-insert_ordered o (p ∷ rest) = let ih = length-insert_ordered o rest in ground (arith, ih)

length-ordered : (rows : List OutboxRow) → length (ordered rows) ≡ length rows
unfolding ordered
length-ordered [] = refl
length-ordered (o ∷ rest) =
    length-insert_ordered o (ordered rest) ∙ ap (λ n. suc n) (length-ordered rest)

length-where_rows :
    (p : OutboxRow → Bool) (rows : List OutboxRow) → length (where_rows p rows) ≡ count_rows p rows
unfolding where_rows count_rows
length-where_rows p [] = refl
length-where_rows p (o ∷ rest) = let ih = length-where_rows p rest in ground (arith, ih)

module _ (input : ClaimInput) (db : Db)
    (room : count_rows (is_claimable input.now db) db.outbox_events ≤ input.limit) where
  whole :
      (rows : List OutboxRow)
      → rows ≡ where_rows (is_claimable input.now db) db.outbox_events
      → take input.limit (ordered rows) ≡ ordered rows
  whole rows same =
      let counted = length-where_rows (is_claimable input.now db) db.outbox_events in
      take-all input.limit (ordered rows) (rw (length-ordered rows) (rw same (rw counted room)))

  listed :
      (id : String)
      → any (λ i. i == id) (batch input db) ≡ row_is id (is_claimable input.now db) db.outbox_events
  unfolding batch row_is
  listed id =
      any-ids id _
      ∙ ap (any (λ o. o.id == id)) (whole _ refl)
      ∙ any-ordered (λ o. o.id == id) _
      ∙ any-where_rows (λ o. o.id == id) (is_claimable input.now db) db.outbox_events

  claimable-is_claimed :
      (o : OutboxRow)
      → row_is o.id (is_claimable input.now db) db.outbox_events ≡ true
      → is_claimable input.now db o ≡ true
      → is_claimed input db o ≡ true
  unfolding is_claimed is_claimable
  claimable-is_claimed o there h = let chosen = listed o.id ∙ there in ground (arith, chosen)

  row_is-is_claimed :
      (id : String) (rows : List OutboxRow)
      → row_is id (is_claimable input.now db) db.outbox_events ≡ true
      → row_is id (is_claimable input.now db) rows ≡ true
      → row_is id (is_claimed input db) rows ≡ true
  unfolding row_is any
  row_is-is_claimed id [] there h = cc
  row_is-is_claimed id (o ∷ rest) there h =
      elim (Bool-cases (o.id == id && is_claimable input.now db o)) [
        | inl found ↦
            let same : o.id ≡ id = (str_eq_iff o.id id).0 (ground arith) in
            let able : is_claimable input.now db o ≡ true = ground arith in
            let chosen = claimable-is_claimed o (rw same there) able in ground (arith, chosen)
        | inr other ↦ let ih = row_is-is_claimed id rest there in ground (arith, ih)
      ]

-- When the limit leaves room for every row that may be claimed, a claim gets exactly the rows that
-- its WHERE admits.
pub claims-all_claimable :
    (input : ClaimInput) (db : Db) (id : String)
    → count_rows (is_claimable input.now db) db.outbox_events ≤ input.limit
    → claims input db id ≡ row_is id (is_claimable input.now db) db.outbox_events
claims-all_claimable input db id room =
    elim (Bool-cases (row_is id (is_claimable input.now db) db.outbox_events)) [
      | inl there ↦
          claims-row_is input db id
          ∙ row_is-is_claimed input db room id db.outbox_events there there
          ∙ sym there
      | inr absent ↦ elim (Bool-cases (claims input db id)) [
        | inl claimed ↦ let sound = claims-claimable input db id claimed in cc
        | inr unclaimed ↦ unclaimed ∙ sym absent
      ]
    ]
