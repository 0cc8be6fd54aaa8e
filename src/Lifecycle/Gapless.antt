-- ===== src/Lifecycle/Gapless.antt =====
-- The sequence numbers of an incident's events are 1, 2, …, up to its row's timeline_sequence.
use template_security_incide.Prelude.{
  some-injective, ◌≡◌, inl, inr, ℕ, zero, suc, ◌+◌, ◌∙◌, sym, ap, String, some, [], ◌∷◌, ◌++◌, List,
  refl, true, false, ◌==◌, string_eq, eq_refl, arith, Bool-cases, if◌then◌else◌,
}
use template_security_incide.Schemas.Common.{opaque_id}
use template_security_incide.Store.Rows.{Db, IncidentRow, TimelineRow}
use template_security_incide.Lifecycle.Step.{Extends}
use template_security_incide.Lifecycle.History.{row_after}

unfoldable pub sequences_of : String → List TimelineRow → List ℕ
sequences_of id [] = []
sequences_of id (e ∷ rest) =
    if e.incident_id == id then e.sequence ∷ sequences_of id rest else sequences_of id rest

-- 1, 2, …, n
unfoldable pub up_to : ℕ → List ℕ
up_to zero = []
up_to (suc n) = up_to n ++ suc n ∷ []

-- Every incident has a canonical identifier, and its events are numbered without a gap.
pub record Gapless (db : Db) : Type 0 where
  pub canonical :
      (id : String) (row : IncidentRow) → db.incidents id ≡ some row → opaque_id id ≡ some id
  pub numbered :
      (id : String) (row : IncidentRow)
      → db.incidents id ≡ some row
      → sequences_of id db.timeline_events ≡ up_to row.timeline_sequence

pub sequences_of-append_same :
    (id : String) (events : List TimelineRow) (e : TimelineRow)
    → e.incident_id ≡ id
    → sequences_of id (events ++ e ∷ []) ≡ sequences_of id events ++ e.sequence ∷ []
unfolding sequences_of
sequences_of-append_same id [] e p =
    let found : (e.incident_id == id) ≡ true = rw p (eq_refl id) in simp found
sequences_of-append_same id (x ∷ xs) e p = elim (Bool-cases (x.incident_id == id)) [
  | inl yes_ ↦ simp (yes_, sequences_of-append_same id xs e p)
  | inr other ↦ simp (other, sequences_of-append_same id xs e p)
]

pub sequences_of-append_other :
    (id : String) (events : List TimelineRow) (e : TimelineRow)
    → (e.incident_id == id) ≡ false
    → sequences_of id (events ++ e ∷ []) ≡ sequences_of id events
unfolding sequences_of
sequences_of-append_other id [] e p = simp p
sequences_of-append_other id (x ∷ xs) e p = elim (Bool-cases (x.incident_id == id)) [
  | inl yes_ ↦ simp (yes_, sequences_of-append_other id xs e p)
  | inr other ↦ simp (other, sequences_of-append_other id xs e p)
]

up_to-suc : (n : ℕ) → up_to (n + 1) ≡ up_to n ++ (n + 1) ∷ []
unfolding up_to
up_to-suc n = let next : n + 1 ≡ suc n = omega arith in rw next refl

-- An abstract step keeps the events of every incident gapless.
pub Extends-Gapless :
    {Change : IncidentRow → IncidentRow → Type 0} {tenant_id id : String} {db db' : Db}
    → Extends Change tenant_id id db db'
    → Gapless db
    → Gapless db'
Extends-Gapless {Change} {tenant_id} {id} {db} {db'} step good =
    let about : step.entry.incident_id ≡ id =
      some-injective (sym step.of_incident ∙ good.canonical id step.old step.found) in
    record {
      canonical = λ i row found. elim (row_after step i) [
        | inl (same, now) ↦ rw (← same) (good.canonical id step.old step.found)
        | inr (other, kept) ↦ good.canonical i row (sym kept ∙ found)
      ];
      numbered = λ i row found. elim (row_after step i) [
        | inl (same, now) ↦
            rw
              (
                ← some-injective (sym now ∙ found),
                step.timeline_written,
                sequences_of-append_same i db.timeline_events step.entry (about ∙ same),
                step.in_sequence,
                step.next_sequence,
                good.numbered i step.old (ap db.incidents (sym same) ∙ step.found),
              )
              (sym (up_to-suc _))
        | inr (other, kept) ↦
            rw
              (
                step.timeline_written,
                sequences_of-append_other i db.timeline_events step.entry (rw about other),
              )
              (good.numbered i row (sym kept ∙ found))
      ];
    }
