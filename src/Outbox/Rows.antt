-- ===== src/Outbox/Rows.antt =====
-- The outbox as a list of rows with distinct identifiers, and what an UPDATE leaves of a row.
use template_security_incide.Prelude.{
  String, Bool, true, false, ◌&&◌, none, some, List, [], ◌∷◌, ◌≡◌, refl, any, map, where_rows,
  count_rows, first_row, update_rows, ◌==◌, string_eq, str_eq_iff, Bool-cases, inl, inr, arith,
}
use template_security_incide.Store.Rows.{OutboxRow}

-- The PRIMARY KEY of outbox_events.
unfoldable pub Distinct : List OutboxRow → Type 0
unfolding any
Distinct [] = Unit
Distinct (o ∷ rest) = (any (λ r. r.id == o.id) rest ≡ false) × Distinct rest

-- Some row with this identifier passes the test.
unfoldable pub row_is : String → (OutboxRow → Bool) → List OutboxRow → Bool
unfolding any
row_is id p rows = any (λ o. o.id == id && p o) rows

pub row_is-absent :
    (id : String) (p : OutboxRow → Bool) (rows : List OutboxRow)
    → any (λ r. r.id == id) rows ≡ false
    → row_is id p rows ≡ false
unfolding row_is
row_is-absent id p [] h = refl
row_is-absent id p (o ∷ rest) h = ground (arith, row_is-absent id p rest)

update_rows-absent :
    (id : String) (p : OutboxRow → Bool) (f : OutboxRow → OutboxRow) (rows : List OutboxRow)
    → ((o : OutboxRow) → (f o).id ≡ o.id)
    → any (λ r. r.id == id) rows ≡ false
    → any (λ r. r.id == id) (update_rows p f rows) ≡ false
unfolding any update_rows
update_rows-absent id p f [] keeps h = refl
update_rows-absent id p f (o ∷ rest) keeps h =
    let ih = update_rows-absent id p f rest keeps in ground (arith, ih, keeps o)

-- A row that an UPDATE has met fails every test that its new columns fail.
pub row_is-update :
    (id : String) (met after : OutboxRow → Bool) (set_ : OutboxRow → OutboxRow)
    (rows : List OutboxRow)
    → Distinct rows
    → ((o : OutboxRow) → (set_ o).id ≡ o.id)
    → ((o : OutboxRow) → after (set_ o) ≡ false)
    → row_is id met rows ≡ true
    → row_is id after (update_rows met set_ rows) ≡ false
unfolding row_is update_rows Distinct
row_is-update id met after set_ [] distinct keeps stops h = cc
row_is-update id met after set_ (o ∷ rest) distinct keeps stops h = elim (Bool-cases (o.id == id)) [
  | inl found ↦
      let same = (str_eq_iff o.id id).0 found in
      let alone : any (λ r. r.id == id) rest ≡ false = rw (← same) distinct.0 in
      let unmet = row_is-absent id met rest alone in
      let settled =
        row_is-absent id after (update_rows met set_ rest)
          (update_rows-absent id met set_ rest keeps alone) in
      ground (arith, keeps o, stops o, settled, unmet)
  | inr other ↦
      let ih = row_is-update id met after set_ rest distinct.1 keeps stops in
      ground (arith, keeps o, ih)
]

-- No row passes the test: the UPDATE changes nothing and the SELECT finds nothing.
pub update_rows-none :
    (p : OutboxRow → Bool) (f : OutboxRow → OutboxRow) (rows : List OutboxRow)
    → any p rows ≡ false
    → (update_rows p f rows ≡ rows) × (count_rows p rows ≡ 0) × (first_row p rows ≡ none)
unfolding any update_rows count_rows first_row
update_rows-none p f [] h = (refl, refl, refl)
update_rows-none p f (o ∷ rest) h = let ih = update_rows-none p f rest in ground (arith, ih)

pub any-where_rows :
    (r p : OutboxRow → Bool) (rows : List OutboxRow)
    → any r (where_rows p rows) ≡ any (λ o. r o && p o) rows
unfolding any where_rows
any-where_rows r p [] = refl
any-where_rows r p (o ∷ rest) = let ih = any-where_rows r p rest in ground (arith, ih)

pub any-map :
    (r : OutboxRow → Bool) (f : OutboxRow → OutboxRow) (rows : List OutboxRow)
    → any r (map f rows) ≡ any (λ o. r (f o)) rows
unfolding any
any-map r f [] = refl
any-map r f (o ∷ rest) = let ih = any-map r f rest in ground (arith, ih)

pub first_row-eq-some :
    (p : OutboxRow → Bool) (rows : List OutboxRow) {o : OutboxRow}
    → first_row p rows ≡ some o
    → (p o ≡ true) × (any p rows ≡ true)
unfolding any first_row
first_row-eq-some p [] h = cc
first_row-eq-some p (x ∷ rest) {o} h = elim (Bool-cases (p x)) [
  | inl yes_ ↦ let same : x ≡ o = ground arith in (rw (← same) yes_, simp yes_ refl)
  | inr other ↦
      let (passes, there) = first_row-eq-some p rest {o = o} (ground arith) in
      (passes, ground arith)
]
