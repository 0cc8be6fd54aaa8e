-- ===== src/Lifecycle/History.antt =====
-- What an abstract step does to every incident and to the timeline, and what a sequence of steps
-- adds up to.
use template_security_incide.Prelude.{
  some-injective, ◌≡◌, ◌⊎◌, inl, inr, ℕ, ◌+◌, ◌≤◌, ◌∙◌, sym, ap, subst, String, some, [], ◌∷◌, ◌++◌,
  List, put_lem, refl, true, false, ◌==◌, string_eq, str_eq_iff, arith, Bool-cases,
}
use mathlib.Core.List.{append_assoc, append-nil}
use template_security_incide.Schemas.Incident.{IncidentStatus, closed}
use template_security_incide.Domain.IncidentState.{can_transition}
use template_security_incide.Store.Rows.{Db, IncidentRow, TimelineRow}
use template_security_incide.Lifecycle.Step.{Extends, Moves, Stays}

-- An edge of the transition table, or an event that keeps the status.
abbrev pub Allowed : IncidentRow → IncidentRow → Type 0
Allowed old new = Moves old new ⊎ Stays old new

-- A walk over so many edges of the transition table.
pub data Walk : IncidentStatus → IncidentStatus → ℕ → Type 0 where
  here : {s : IncidentStatus} → Walk s s 0
  along :
      {s t u : IncidentStatus} {n : ℕ} → Walk s t n → can_transition t u ≡ true → Walk s u (n + 1)

Walk-cast : {s t : IncidentStatus} {m n : ℕ} → m ≡ n → Walk s t m → Walk s t n
Walk-cast {s} {t} p = subst (λ k. Walk s t k) p

pub Walk-append : {s t u : IncidentStatus} {m n : ℕ} → Walk s t m → Walk t u n → Walk s u (m + n)
Walk-append w here = Walk-cast (omega arith) w
Walk-append w (along v edge) = Walk-cast (omega arith) (along (Walk-append w v) edge)

-- A row that has grown: its version counts the edges its status has gone along.
pub record Grown (old new : IncidentRow) : Type 0 where
  pub edges : ℕ
  pub walk : Walk old.status new.status edges
  pub version : new.version ≡ old.version + edges
  pub tenant : new.tenant_id ≡ old.tenant_id
  pub events : old.timeline_sequence ≤ new.timeline_sequence
  pub later : old.updated_at ≤ new.updated_at

-- Every incident is still there and has grown, and the timeline has only been appended to.
pub record Grows (db db' : Db) : Type 0 where
  pub rows :
      (id : String) (old : IncidentRow)
      → db.incidents id ≡ some old
      → (new : IncidentRow) × (db'.incidents id ≡ some new) × Grown old new
  pub appended : (more : List TimelineRow) × (db'.timeline_events ≡ db.timeline_events ++ more)

Grown-refl : (row : IncidentRow) → Grown row row
Grown-refl row = record {
  edges = 0;
  walk = here;
  version = omega arith;
  tenant = refl;
  events = omega arith;
  later = omega arith;
}

Grown-trans : {a b c : IncidentRow} → Grown a b → Grown b c → Grown a c
Grown-trans f g = record {
  edges = f.edges + g.edges;
  walk = Walk-append f.walk g.walk;
  version = omega (arith, f.version, g.version);
  tenant = g.tenant ∙ f.tenant;
  events = omega (arith, f.events, g.events);
  later = omega (arith, f.later, g.later);
}

pub Grows-refl : (db : Db) → Grows db db
Grows-refl db = record {
  rows = λ id old found. (old, found, Grown-refl old);
  appended = ([], sym (append-nil _));
}

pub Grows-trans : {a b c : Db} → Grows a b → Grows b c → Grows a c
Grows-trans f g = record {
  rows = λ id old found.
      let (mid, at, first) = f.rows id old found in
      let (new, there, second) = g.rows id mid at in (new, there, Grown-trans first second);
  appended =
      let (xs, p) = f.appended in
      let (ys, q) = g.appended in (xs ++ ys, q ∙ ap (λ zs. zs ++ ys) p ∙ append_assoc _ xs ys);
}

Grown-of-Allowed :
    {tenant_id id : String} {db db' : Db} (step : Extends Allowed tenant_id id db db')
    → Grown step.old step.new
Grown-of-Allowed step = elim step.changes [
  | inl (edge, version) ↦ record {
    edges = 1;
    walk = along here edge;
    version = version;
    tenant = step.same_tenant;
    events = omega (arith, step.next_sequence);
    later = step.later;
  }
  | inr (status, version) ↦ record {
    edges = 0;
    walk = rw status here;
    version = omega (arith, version);
    tenant = step.same_tenant;
    events = omega (arith, step.next_sequence);
    later = step.later;
  }
]

-- What an abstract step leaves at an identifier: the new row, or what was there.
pub row_after :
    {Change : IncidentRow → IncidentRow → Type 0} {tenant_id id : String} {db db' : Db}
    (step : Extends Change tenant_id id db db') (i : String)
    → (id ≡ i) × (db'.incidents i ≡ some step.new)
      ⊎ ((id == i) ≡ false) × (db'.incidents i ≡ db.incidents i)
row_after {Change} {tenant_id} {id} {db} {db'} step i = elim (Bool-cases (id == i)) [
  | inl same ↦ inl ((str_eq_iff id i).0 same, rw (step.incidents_written, put_lem, same) refl)
  | inr other ↦ inr (other, rw (step.incidents_written, put_lem, other) refl)
]

pub Grows-of-Allowed :
    {tenant_id id : String} {db db' : Db} → Extends Allowed tenant_id id db db' → Grows db db'
Grows-of-Allowed {tenant_id} {id} {db} {db'} step = record {
  rows = λ i old found. elim (row_after step i) [
    | inl (same, now) ↦ (
      step.new,
      now,
      rw (some-injective (sym found ∙ ap db.incidents (sym same) ∙ step.found))
          (Grown-of-Allowed step),
    )
    | inr (other, kept) ↦ (old, kept ∙ found, Grown-refl old)
  ];
  appended = (step.entry ∷ [], step.timeline_written);
}

-- No edge leads out of closed.
pub closed_is_final :
    {s t : IncidentStatus} {n : ℕ} → Walk s t n → s ≡ closed → (t ≡ closed) × (n ≡ 0)
unfolding can_transition
closed_is_final here was = (was, refl)
closed_is_final (along {t = t} w edge) was =
    let (stop, none_) = closed_is_final w was in ground (arith, stop, edge)
