-- ===== src/Schemas/Parsing.antt =====
-- A zod object schema parses its fields in turn, and fails if one of them does.
use template_security_incide.Prelude.{String, Bool, true, false, Option, none, some}
use template_security_incide.Schemas.Common.{opaque_id}

infixl 5 ◌>>=◌ ◌>>◌
abbrev pub ◌>>=◌ : {A B : Type 0} → Option A → (A → Option B) → Option B
none >>= f = none
some a >>= f = f a

abbrev pub ◌>>◌ : {B : Type 0} → Option (Unit {0}) → Option B → Option B
m >> k = m >>= λ _. k

-- `.refine(test)`
abbrev pub refine : Bool → Option (Unit {0})
refine true = some tt
refine false = none

-- opaqueId.optional()
abbrev pub optional_id : Option String → Option (Option String)
optional_id none = some none
optional_id (some s) = elim (opaque_id s) [ none ↦ none | some t ↦ some (some t) ]
