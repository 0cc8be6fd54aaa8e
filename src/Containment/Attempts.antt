-- ===== src/Containment/Attempts.antt =====
-- The attempts at an action as a ledger: at most one is executing, and it is the newest.
use template_security_incide.Prelude.{
  ◌≤◌, ◌<◌, ◌≡◌, refl, sym, ap, subst, ◌∙◌, ◌⊎◌, inl, inr, Bool, true, false, none, some, List, [],
  ◌∷◌, ltb, ◌==◌, string_eq, update_rows, Bool-cases, Option-cases, ◌∈◌, mem-update, arith,
}
use template_security_incide.Schemas.Containment.{executing, execution_eq, execution_eq_iff}
use template_security_incide.Store.ContainmentRows.{AttemptRow}
use template_security_incide.Containment.Reads.{newest}

abbrev pub IsExecuting : AttemptRow → Type 0
IsExecuting a = a.status ≡ executing

-- Attempts at one action.
abbrev pub Same : AttemptRow → AttemptRow → Type 0
Same a b = (a.tenant_id ≡ b.tenant_id) × (a.plan_id ≡ b.plan_id) × (a.action_id ≡ b.action_id)

pub Same-trans : (a b c : AttemptRow) → Same a b → Same b c → Same a c
Same-trans a b c (h₁, h₂, h₃) (g₁, g₂, g₃) = (h₁ ∙ g₁, h₂ ∙ g₂, h₃ ∙ g₃)

abbrev pub OneLive : List AttemptRow → Type 0
OneLive rows =
    (a b : AttemptRow)
    → a ∈ rows
    → b ∈ rows
    → IsExecuting a
    → Same a b
    → (b.attempt < a.attempt) ⊎ (b ≡ a)

-- What an attempt that has ended keeps of the one that was executing.
pub record Closes (a b : AttemptRow) : Type 0 where
  pub was : IsExecuting a
  pub ended : (b.status == executing) ≡ false
  pub same : Same b a
  pub number : b.attempt ≡ a.attempt

abbrev pub Closing : (AttemptRow → Bool) → (AttemptRow → AttemptRow) → Type 0
Closing p f = (a : AttemptRow) → p a ≡ true → Closes a (f a)

-- The rows after an UPDATE that ends attempts: those that it has not met, and those it has ended.
pub mem-closed :
    (p : AttemptRow → Bool) (f : AttemptRow → AttemptRow) (rows : List AttemptRow) (b : AttemptRow)
    → Closing p f
    → b ∈ update_rows p f rows
    → ((b ∈ rows) × (p b ≡ false)) ⊎ ((a : AttemptRow) × (a ∈ rows) × (p a ≡ true) × Closes a b)
mem-closed p f rows b closing m =
    let (a, there, is_a) = mem-update b p f rows m in
    elim (Bool-cases (p a)) [
      | inl met ↦
          let is_f : b ≡ f a = is_a ∙ rw met refl in
          inr (a, there, met, subst (Closes a) (sym is_f) (closing a met))
      | inr missed ↦ let is_same : b ≡ a = is_a ∙ rw missed refl in inl (rw is_same (there, missed))
    ]

pub not-executing : (a : AttemptRow) → (a.status == executing) ≡ false → IsExecuting a → ⊥
not-executing a h running = let found = (execution_eq_iff a.status executing).1 running in cc

pub OneLive-update :
    (p : AttemptRow → Bool) (f : AttemptRow → AttemptRow) (rows : List AttemptRow)
    → Closing p f
    → OneLive rows
    → OneLive (update_rows p f rows)
OneLive-update p f rows closing live a b in_a in_b running same =
    elim (mem-closed p f rows a closing in_a) [
      | inr (x, in_x, met, c) ↦ elim (not-executing a c.ended running) [ ]
      | inl (was_a, missed) ↦ elim (mem-closed p f rows b closing in_b) [
        | inl (was_b, missed_b) ↦ live a b was_a was_b running same
        | inr (y, in_y, met, c) ↦
            elim (live a y was_a in_y running (Same-trans a b y same c.same)) [
              | inl less ↦ inl (omega (arith, less, c.number))
              | inr is_a ↦ let met_a : p a ≡ true = rw (← is_a) met in cc
            ]
      ]
    ]

-- ORDER BY attempt DESC LIMIT 1
pub newest-none :
    (p : AttemptRow → Bool) (rows : List AttemptRow) (a : AttemptRow)
    → newest p rows ≡ none
    → a ∈ rows
    → p a ≡ false
unfolding newest
newest-none p [] a h m = elim m [ ]
newest-none p (x ∷ xs) a h (inl e) =
    let met : p x ≡ false = elim (Option-cases (newest p xs)) [
      | inl gone ↦ ground arith
      | inr (r, found) ↦ ground arith
    ] in
    rw e met
newest-none p (x ∷ xs) a h (inr m) =
    let gone : newest p xs ≡ none = elim (Option-cases (newest p xs)) [
      | inl gone ↦ gone
      | inr (r, found) ↦ ground arith
    ] in
    newest-none p xs a gone m

-- It is a row of the scan, and no row has a greater number.
abbrev pub IsNewest : (AttemptRow → Bool) → List AttemptRow → AttemptRow → Type 0
IsNewest p rows r =
    (r ∈ rows) × (p r ≡ true) × ((a : AttemptRow) → a ∈ rows → p a ≡ true → a.attempt ≤ r.attempt)

newest-last :
    (p : AttemptRow → Bool) (x : AttemptRow) (xs : List AttemptRow) (r : AttemptRow)
    → newest p xs ≡ none
    → newest p (x ∷ xs) ≡ some r
    → (r ≡ x) × (p x ≡ true)
unfolding newest
newest-last p x xs r gone h = (ground arith, ground arith)

-- A longer scan: the first row is the newest, or the newest of the rest is, which is no older.
newest-choice :
    (p : AttemptRow → Bool) (x : AttemptRow) (xs : List AttemptRow) (r s : AttemptRow)
    → newest p xs ≡ some s
    → newest p (x ∷ xs) ≡ some r
    → ((r ≡ s) × (p x ≡ true → x.attempt ≤ s.attempt))
      ⊎ ((r ≡ x) × (p x ≡ true) × (s.attempt ≤ x.attempt))
unfolding newest
newest-choice p x xs r s found h = elim (Bool-cases (p x)) [
  | inr missed ↦ inl (ground arith, λ q. cc)
  | inl met ↦ elim (Bool-cases (ltb x.attempt s.attempt)) [
    | inl older ↦ inl (ground arith, λ q. ground arith)
    | inr newer ↦ inr (ground arith, met, ground arith)
  ]
]

pub newest-some :
    (p : AttemptRow → Bool) (rows : List AttemptRow) (r : AttemptRow)
    → newest p rows ≡ some r
    → IsNewest p rows r
unfolding newest
newest-some p [] r h = cc
newest-some p (x ∷ xs) r h = elim (Option-cases (newest p xs)) [
  | inl gone ↦
      let (is_x, met) = newest-last p x xs r gone h in
      (
        inl is_x,
        rw is_x met,
        λ a m q. elim m [
          | inl e ↦ rw e (rw is_x (omega arith))
          | inr rest ↦ let missed = newest-none p xs a gone rest in cc
        ],
      )
  | inr (s, found) ↦
      let (in_s, met_s, most_s) = newest-some p xs s found in
      elim (newest-choice p x xs r s found h) [
        | inl (is_s, least) ↦ subst (IsNewest p (x ∷ xs)) (sym is_s) (
          inr in_s,
          met_s,
          λ a m q. elim m [
            | inl e ↦
                let below = least (subst (λ z. p z ≡ true) e q) in
                omega (arith, below, ap (λ (z : AttemptRow). z.attempt) e)
            | inr rest ↦ most_s a rest q
          ],
        )
        | inr (is_x, met, most) ↦ subst (IsNewest p (x ∷ xs)) (sym is_x) (
          inl refl,
          met,
          λ a m q. elim m [
            | inl e ↦ omega (arith, ap (λ (z : AttemptRow). z.attempt) e)
            | inr rest ↦ let below = most_s a rest q in omega (arith, below, most)
          ],
        )
      ]
]
