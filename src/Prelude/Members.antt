-- ===== src/Prelude/Members.antt =====
-- The rows that a statement leaves in a table.
use mathlib.Core.Path.{◌≡◌, refl}
use mathlib.Core.Logic.{◌⊎◌, inl, inr}
use mathlib.Core.Bool.{Bool, true, false}
use mathlib.Core.Option.{some}
use mathlib.Core.List.{List, [], ◌∷◌, ◌++◌}
use native.Mathlib.Omega.{arith}
use template_security_incide.Prelude.Tests.{if◌then◌else◌, Bool-cases}
use template_security_incide.Prelude.Lists.{any, count_rows, first_row, update_rows}

module _ {A : Type 0} where
  infix 40 ◌∈◌
  abbrev pub ◌∈◌ : A → List A → Type 0
  x ∈ [] = ⊥
  x ∈ y ∷ ys = (x ≡ y) ⊎ (x ∈ ys)

  pub mem-append : (x : A) (xs : List A) (e : A) → x ∈ xs ++ e ∷ [] → (x ∈ xs) ⊎ (x ≡ e)
  mem-append x [] e (inl p) = inr p
  mem-append x [] e (inr m) = elim m [ ]
  mem-append x (y ∷ ys) e (inl p) = inl (inl p)
  mem-append x (y ∷ ys) e (inr m) = elim (mem-append x ys e m) [
    | inl there ↦ inl (inr there)
    | inr new ↦ inr new
  ]

  pub mem-grown : (x : A) (xs : List A) (e : A) → x ∈ xs → x ∈ xs ++ e ∷ []
  mem-grown x [] e m = elim m [ ]
  mem-grown x (y ∷ ys) e (inl p) = inl p
  mem-grown x (y ∷ ys) e (inr m) = inr (mem-grown x ys e m)

  pub mem-added : (xs : List A) (e : A) → e ∈ xs ++ e ∷ []
  mem-added [] e = inl refl
  mem-added (y ∷ ys) e = inr (mem-added ys e)

  -- A row after an UPDATE was a row before it.
  pub mem-update :
      (x : A) (p : A → Bool) (f : A → A) (xs : List A)
      → x ∈ update_rows p f xs
      → (y : A) × (y ∈ xs) × (x ≡ (if p y then f y else y))
  unfolding update_rows
  mem-update x p f [] m = elim m [ ]
  mem-update x p f (y ∷ ys) (inl e) = (y, inl refl, e)
  mem-update x p f (y ∷ ys) (inr m) = let (z, there, e) = mem-update x p f ys m in (z, inr there, e)

  pub mem-updated :
      (x : A) (p : A → Bool) (f : A → A) (xs : List A)
      → x ∈ xs
      → (if p x then f x else x) ∈ update_rows p f xs
  unfolding update_rows
  mem-updated x p f [] m = elim m [ ]
  mem-updated x p f (y ∷ ys) (inl e) = inl (rw e refl)
  mem-updated x p f (y ∷ ys) (inr m) = inr (mem-updated x p f ys m)

  pub any-none : (p : A → Bool) (xs : List A) (x : A) → any p xs ≡ false → x ∈ xs → p x ≡ false
  unfolding any
  any-none p [] x h m = elim m [ ]
  any-none p (y ∷ ys) x h (inl e) = rw e (ground arith)
  any-none p (y ∷ ys) x h (inr m) = any-none p ys x (ground arith) m

  pub any-of : (p : A → Bool) (xs : List A) (x : A) → x ∈ xs → p x ≡ true → any p xs ≡ true
  unfolding any
  any-of p [] x m h = elim m [ ]
  any-of p (y ∷ ys) x (inl e) h = let found : p y ≡ true = rw (← e) h in ground (arith, found)
  any-of p (y ∷ ys) x (inr m) h = let rest = any-of p ys x m h in ground (arith, rest)

  pub any-false : (p : A → Bool) (xs : List A) → ((x : A) → x ∈ xs → p x ≡ false) → any p xs ≡ false
  unfolding any
  any-false p [] none = refl
  any-false p (y ∷ ys) none =
      let here = none y (inl refl) in
      let rest = any-false p ys λ x m. none x (inr m) in ground (arith, here, rest)

  pub count_rows-zero :
      (p : A → Bool) (xs : List A) → ((x : A) → x ∈ xs → p x ≡ false) → count_rows p xs ≡ 0
  unfolding count_rows
  count_rows-zero p [] none = refl
  count_rows-zero p (y ∷ ys) none =
      let here = none y (inl refl) in
      let rest = count_rows-zero p ys λ x m. none x (inr m) in ground (arith, here, rest)

  pub count_rows-none :
      (p : A → Bool) (xs : List A) (x : A) → count_rows p xs ≡ 0 → x ∈ xs → p x ≡ false
  unfolding count_rows
  count_rows-none p [] x h m = elim m [ ]
  count_rows-none p (y ∷ ys) x h (inl e) = rw e (ground arith)
  count_rows-none p (y ∷ ys) x h (inr m) = count_rows-none p ys x (ground arith) m

  pub any-member :
      (p : A → Bool) (xs : List A) → any p xs ≡ true → (x : A) × (x ∈ xs) × (p x ≡ true)
  unfolding any
  any-member p [] h = cc
  any-member p (y ∷ ys) h = elim (Bool-cases (p y)) [
    | inl here ↦ (y, inl refl, here)
    | inr other ↦ let (x, there, met) = any-member p ys (ground arith) in (x, inr there, met)
  ]

  pub first_row-member :
      (p : A → Bool) (xs : List A) (r : A) → first_row p xs ≡ some r → (r ∈ xs) × (p r ≡ true)
  unfolding first_row
  first_row-member p [] r h = cc
  first_row-member p (y ∷ ys) r h = elim (Bool-cases (p y)) [
    | inl here ↦ let is_r : y ≡ r = ground arith in rw (← is_r) (inl refl, here)
    | inr other ↦ let (there, met) = first_row-member p ys r (ground arith) in (inr there, met)
  ]

  -- An UPDATE that a test does not read.
  pub any-update :
      (q w : A → Bool) (f : A → A) (xs : List A)
      → ((x : A) → q (f x) ≡ q x)
      → any q (update_rows w f xs) ≡ any q xs
  unfolding any update_rows
  any-update q w f [] keeps = refl
  any-update q w f (y ∷ ys) keeps = elim (Bool-cases (w y)) [
    | inl met ↦ let ih = any-update q w f ys keeps in rw met (rw (keeps y) (rw ih refl))
    | inr missed ↦ let ih = any-update q w f ys keeps in rw missed (rw ih refl)
  ]

  pub count_rows-update :
      (q r w : A → Bool) (f : A → A) (xs : List A)
      → ((x : A) → q x ≡ r x)
      → ((x : A) → q (f x) ≡ r x)
      → count_rows q (update_rows w f xs) ≡ count_rows r xs
  unfolding count_rows update_rows
  count_rows-update q r w f [] same keeps = refl
  count_rows-update q r w f (y ∷ ys) same keeps =
      let ih = count_rows-update q r w f ys same keeps in
      elim (Bool-cases (w y)) [
        | inl met ↦ rw met (rw (keeps y) (rw ih refl))
        | inr missed ↦ rw missed (rw (same y) (rw ih refl))
      ]
