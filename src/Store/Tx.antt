-- ===== src/Store/Tx.antt =====
-- LibSqlOperationalStore.transaction: what a body has written is committed if it returns, and rolled
-- back if it throws.
use template_security_incide.Prelude.{
  if◌then◌else◌, subst, sym, ap, ◌∙◌, ◌⊎◌, inl, inr, arith, ◌≡◌, refl, Bool, true, false, Option,
  none, some,
}
use template_security_incide.Domain.Errors.{DomainError, DomainErrorCode, domain_error}
use template_security_incide.Store.Rows.{Db}

pub data Result {ℓ} (A : Type ℓ) : Type ℓ where
  ok : A → Result A
  err : DomainError → Result A

pub Result-cases {ℓ} :
    {A : Type ℓ} (r : Result A) → ((a : A) × (r ≡ ok a)) ⊎ ((e : DomainError) × (r ≡ err e))
Result-cases (ok a) = inl (a, refl)
Result-cases (err e) = inr (e, refl)

-- The body of a transaction.
abbrev pub Tx : Type 0 → Type 0
Tx A = Db → Result (A × Db)

unfoldable pub continue : {A B : Type 0} → Result (A × Db) → (A → Tx B) → Result (B × Db)
continue (ok (a, db')) f = f a db'
continue (err e) f = err e

infixl 5 ◌>>=◌ ◌>>◌
abbrev pub ◌>>=◌ : {A B : Type 0} → Tx A → (A → Tx B) → Tx B
◌>>=◌ m f db = continue (m db) f

abbrev pub ◌>>◌ : {B : Type 0} → Tx (Unit {0}) → Tx B → Tx B
m >> k = m >>= λ _. k

unfoldable pub pure : {A : Type 0} → A → Tx A
pure a db = ok (a, db)

unfoldable pub throw : {A : Type 0} → DomainErrorCode → Tx A
throw code db = err (domain_error code)

unfoldable pub throw_if : Bool → DomainErrorCode → Tx (Unit {0})
throw_if true code db = err (domain_error code)
throw_if false code db = ok (tt, db)

unfoldable pub read : {A : Type 0} → (Db → A) → Tx A
read f db = ok (f db, db)

-- `if (!row) throw new DomainError(code)`
unfoldable pub expect : {A : Type 0} → Option A → DomainErrorCode → Tx A
expect none code db = err (domain_error code)
expect (some a) code db = ok (a, db)

-- The error depends on what a further read answers.
abbrev pub expect_or : {A : Type 0} → Option A → (Db → DomainErrorCode) → Tx A
expect_or o code db = expect o (code db) db

unfoldable pub transaction : {A : Type 0} → Tx A → Db → Result A × Db
transaction m db = elim (m db) [ ok (a, db') ↦ (ok a, db') | err e ↦ (err e, db) ]

-- Opens every step of a body.
unfoldable pub steps : Unit {0}
unfolding continue pure throw throw_if read expect
steps = tt

-- A body that returned: what its first step has answered is handed on, as new variables.
module _ {ℓ} {A B : Type 0} {P : Type ℓ} where
  pub continue-elim :
      (r : Result (A × Db)) (f : A → Tx B) (b : B × Db)
      → continue r f ≡ ok b
      → ((a : A) (db' : Db) → r ≡ ok (a, db') → f a db' ≡ ok b → P)
      → P
  unfolding continue
  continue-elim (ok (a, db')) f b h k = k a db' refl h
  continue-elim (err e) f b h k = cc

  pub expect-elim :
      (o : Option A) (c : DomainErrorCode) (db : Db) (f : A → Tx B) (b : B × Db)
      → continue (expect o c db) f ≡ ok b
      → ((a : A) → o ≡ some a → f a db ≡ ok b → P)
      → P
  unfolding continue expect
  expect-elim none c db f b h k = cc
  expect-elim (some a) c db f b h k = k a refl h

  pub read-elim :
      (g : Db → A) (db : Db) (f : A → Tx B) (b : B × Db)
      → continue (read g db) f ≡ ok b
      → (f (g db) db ≡ ok b → P)
      → P
  unfolding continue read
  read-elim g db f b h k = k h

module _ {ℓ} {B : Type 0} {P : Type ℓ} where
  pub throw_if-elim :
      (t : Bool) (c : DomainErrorCode) (db : Db) (f : Unit {0} → Tx B) (b : B × Db)
      → continue (throw_if t c db) f ≡ ok b
      → (t ≡ false → f tt db ≡ ok b → P)
      → P
  unfolding continue throw_if
  throw_if-elim true c db f b h k = cc
  throw_if-elim false c db f b h k = k refl h

-- A check that writes nothing.
abbrev pub ReadsOnly : Tx (Unit {0}) → Type 0
ReadsOnly check = (db db' : Db) → check db ≡ ok (tt, db') → db' ≡ db

pub check-elim {ℓ} :
    {B : Type 0} {P : Type ℓ} (check : Tx (Unit {0})) (db : Db) (f : Unit {0} → Tx B) (b : B × Db)
    → continue (check db) f ≡ ok b
    → ReadsOnly check
    → (f tt db ≡ ok b → P)
    → P
check-elim check db f b h reads k =
    continue-elim (check db) f b h
      λ a db' e rest. k (subst (λ (d : Db). f tt d ≡ ok b) (reads db db' e) rest)

pub expect-eq-ok :
    {A : Type 0} (o : Option A) (c : DomainErrorCode) (db : Db) {a : A} {db' : Db}
    → expect o c db ≡ ok (a, db')
    → (o ≡ some a) × (db' ≡ db)
unfolding expect
expect-eq-ok none c db h = cc
expect-eq-ok (some a) c db h = ground arith

pub pure-eq-ok :
    {A : Type 0} (x : A) (db : Db) {a : A} {db' : Db}
    → pure x db ≡ ok (a, db')
    → (a ≡ x) × (db' ≡ db)
unfolding pure
pure-eq-ok x db h = ground arith

-- The first step is known to return.
pub continue-at :
    {A B : Type 0} {r : Result (A × Db)} {a : A} {db : Db} (f : A → Tx B) (b : B × Db)
    → r ≡ ok (a, db)
    → continue r f ≡ ok b
    → f a db ≡ ok b
unfolding continue
continue-at {r = r} {a = a} {db = db} f b known h = sym (ap (λ x. continue x f) known) ∙ h

-- The branch that was taken.
pub then_branch :
    {A : Type 0} (t : Bool) (x y : Tx A) (db : Db) (r : Result (A × Db))
    → t ≡ true
    → (if t then x else y) db ≡ r
    → x db ≡ r
then_branch true x y db r met h = h
then_branch false x y db r met h = cc

pub else_branch :
    {A : Type 0} (t : Bool) (x y : Tx A) (db : Db) (r : Result (A × Db))
    → t ≡ false
    → (if t then x else y) db ≡ r
    → y db ≡ r
else_branch true x y db r met h = cc
else_branch false x y db r met h = h

-- A transaction has run its body, or has left the database as it was.
pub transaction-cases :
    {A : Type 0} (m : Tx A) (db : Db)
    → ((e : DomainError) × (transaction m db ≡ (err e, db)))
      ⊎ ((a : A) × (db' : Db) × (m db ≡ ok (a, db')) × (transaction m db ≡ (ok a, db')))
unfolding transaction
transaction-cases m db = elim (Result-cases (m db)) [
  | inl ((a, db'), e) ↦ inr (a, db', e, rw (e, transaction) refl)
  | inr (e, h) ↦ inl (e, rw (h, transaction) refl)
]
