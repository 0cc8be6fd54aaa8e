-- ===== src/Prelude/Equality.antt =====
-- Equality tests as an interface: JavaScript's `===` and SQL's `=` on numbers, texts and nullable values.
use Prim.Native.Nat.{ℕ}
use Prim.Native.String.{String}
use mathlib.Core.Path.{◌≡◌, refl, ap}
use mathlib.Core.Logic.{◌↔◌}
use mathlib.Core.Bool.{Bool, true, false}
use mathlib.Core.Option.{Option, none, some}
use text.Mathlib.Text.{◌==◌ as str_eq}
use text.Mathlib.TextEquality.{eq_iff}
use template_security_incide.Prelude.Tests.{nat_beq, nat_beq_iff}

pub record Eq {ℓ} (A : Type ℓ) : Type ℓ where
  pub equals : A → A → Bool
  pub decides : (a b : A) → (equals a b ≡ true) ↔ (a ≡ b)

pub str_eq_iff : (s t : String) → (str_eq s t ≡ true) ↔ (s ≡ t)
str_eq_iff = eq_iff

instance abbrev pub string_eq : Eq String
string_eq = record { equals = str_eq; decides = eq_iff }

infix 50 ◌==◌
abbrev pub ◌==◌ {ℓ} : {A : Type ℓ} ⦃e : Eq A⦄ → A → A → Bool
◌==◌ ⦃e⦄ = e.equals

instance abbrev pub nat_eq : Eq ℕ
nat_eq = record { equals = nat_beq; decides = nat_beq_iff }

module _ {ℓ} {A : Type ℓ} ⦃e : Eq A⦄ where
  abbrev pub option_beq : Option A → Option A → Bool
  option_beq none none = true
  option_beq (some a) (some b) = e.equals a b
  option_beq _ _ = false

  pub option_beq_iff : (a b : Option A) → (option_beq a b ≡ true) ↔ (a ≡ b)
  option_beq_iff none none = (λ _. refl, λ _. refl)
  option_beq_iff (some a) (some b) =
      (λ h. ap some ((e.decides a b).0 h), λ p. (e.decides a b).1 (cc))
  option_beq_iff none (some b) = (λ h. cc, λ p. cc)
  option_beq_iff (some a) none = (λ h. cc, λ p. cc)

  instance abbrev pub option_eq : Eq (Option A)
  option_eq = record { equals = option_beq; decides = option_beq_iff }

  pub eq_refl : (a : A) → (a == a) ≡ true
  eq_refl a = (e.decides a a).1 refl
