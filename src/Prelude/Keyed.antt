-- ===== src/Prelude/Keyed.antt =====
-- A table with a primary key, as the function from keys to rows.
use Prim.Native.String.{String}
use mathlib.Core.Path.{◌≡◌, refl}
use mathlib.Core.Option.{Option, none, some}
use template_security_incide.Prelude.Tests.{if◌then◌else◌}
use template_security_incide.Prelude.Equality.{◌==◌, string_eq, eq_refl}

abbrev pub Table {ℓ} : Type ℓ → Type ℓ
Table V = String → Option V

module _ {ℓ} {V : Type ℓ} where
  unfoldable pub empty : Table V
  empty k = none

  -- INSERT, or UPDATE of the one row with this key.
  unfoldable pub put : String → V → Table V → Table V
  put k v t j = if k == j then some v else t j

  pub put_lem :
      (k : String) (v : V) (t : Table V) (j : String)
      → put k v t j ≡ (if k == j then some v else t j)
  unfolding put
  put_lem k v t j = refl

  pub put_self : (k : String) (v : V) (t : Table V) → put k v t k ≡ some v
  put_self k v t = simp (put_lem, eq_refl)
