-- ===== src/Schemas/Common.antt =====
-- src/schemas/common.ts: opaque identifiers, bounded texts, tenant identities, bounded JSON objects.
-- A zod `string().trim()` schema answers the trimmed text, so a parse here answers `Option String`.
-- Lengths are JavaScript's, in UTF-16 units, but a tenant identity is counted in code points.
use Prim.Native.Char.{code}
use template_security_incide.Prelude.{
  ℕ, suc, ◌+◌, String, ◌≡◌, refl, Bool, true, false, ◌&&◌, ◌||◌, Option, none, some, List, leb, ltb,
  ◌==◌, nat_eq, string_eq, if◌then◌else◌, length, all,
}

-- The white space and line terminators of ECMAScript.
is_space : ℕ → Bool
is_space c =
    (leb 9 c && leb c 13)
    || c == 32
    || c == 0xa0
    || c == 0x1680
    || (leb 0x2000 c && leb c 0x200a)
    || c == 0x2028
    || c == 0x2029
    || c == 0x202f
    || c == 0x205f
    || c == 0x3000
    || c == 0xfeff

trim_start : String → String
trim_start String.[] = String.[]
trim_start (String.◌∷◌ c s) = if is_space (code c) then trim_start s else String.◌∷◌ c s

is_empty : String → Bool
is_empty String.[] = true
is_empty (String.◌∷◌ c s) = false

trim_end : String → String
trim_end String.[] = String.[]
trim_end (String.◌∷◌ c s) =
    let rest = trim_end s in
    if is_space (code c) && is_empty rest then String.[] else String.◌∷◌ c rest

-- String.prototype.trim
unfoldable pub trim : String → String
unfolding is_space trim_start is_empty trim_end
trim s = trim_end (trim_start s)

-- String.prototype.length
unfoldable pub utf16_length : String → ℕ
utf16_length String.[] = 0
utf16_length (String.◌∷◌ c s) = (if ltb (code c) 0x10000 then 1 else 2) + utf16_length s

-- Array.from(value).length
unfoldable pub code_points : String → ℕ
code_points String.[] = 0
code_points (String.◌∷◌ c s) = suc (code_points s)

unfoldable pub trimmed_within : ℕ → String → Option String
trimmed_within most s =
    let t = trim s in if leb 1 (utf16_length t) && leb (utf16_length t) most then some t else none

unfoldable pub opaque_id : String → Option String
unfolding trimmed_within trim utf16_length
opaque_id = trimmed_within 128

unfoldable pub short_text : String → Option String
unfolding trimmed_within trim utf16_length
short_text = trimmed_within 256

unfoldable pub long_text : String → Option String
unfolding trimmed_within trim utf16_length
long_text = trimmed_within 4096

abbrev pub max_tenant_id_code_points : ℕ
max_tenant_id_code_points = 128

unfoldable pub is_canonical_tenant_id : String → Bool
unfolding trim code_points utf16_length
is_canonical_tenant_id value =
    ltb 0 (utf16_length value)
    && trim value == value
    && leb (code_points value) max_tenant_id_code_points

-- z.number().finite(): the numbers that the program writes into a payload are counts.
pub data JsonPrimitive : Type 0 where
  str : String → JsonPrimitive
  num : ℕ → JsonPrimitive
  bool : Bool → JsonPrimitive
  null : JsonPrimitive

-- The entries of an object, whose keys are distinct.
abbrev pub Payload : Type 0
Payload = List (String × JsonPrimitive)

json_primitive : JsonPrimitive → Bool
json_primitive (str s) = leb (utf16_length s) 2048
json_primitive (num n) = true
json_primitive (bool b) = true
json_primitive null = true

unfoldable pub bounded_json_object : Payload → Bool
unfolding json_primitive utf16_length all
bounded_json_object payload =
    all
      (λ entry.
        leb 1 (utf16_length entry.0) && leb (utf16_length entry.0) 64 && json_primitive entry.1)
      payload
    && leb (length payload) 32

opaque_id_tests :
    (opaque_id " run-1 " ≡ some "run-1")
    × (opaque_id "  " ≡ none)
    × (is_canonical_tenant_id "tenant " ≡ false)
unfolding opaque_id is_canonical_tenant_id
opaque_id_tests = (refl, refl, refl)

hexadecimal : String → Bool
hexadecimal String.[] = true
hexadecimal (String.◌∷◌ c s) =
    ((leb b'0' (code c) && leb (code c) b'9') || (leb b'a' (code c) && leb (code c) b'f'))
    && hexadecimal s

-- /^[a-f0-9]{64}$/u
unfoldable pub is_sha256 : String → Bool
unfolding hexadecimal code_points
is_sha256 s = hexadecimal s && code_points s == 64
