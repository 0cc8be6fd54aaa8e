-- ===== src/Approvals/Token.antt =====
-- digestResumeToken of src/approval/resume-token.ts. node:crypto's SHA-256, fed with the domain and
-- then the token, is the parameter `sha256`.
use template_security_incide.Prelude.{
  String, Bool, true, ◌&&◌, ◌||◌, Option, none, some, leb, ◌==◌, nat_eq, if◌then◌else◌,
}
use Prim.Native.Char.{code}
use text.Mathlib.Text.{starts_with}
use template_security_incide.Schemas.Common.{utf16_length}

-- [A-Za-z0-9_-]*
token_characters : String → Bool
token_characters String.[] = true
token_characters (String.◌∷◌ c s) =
    ((leb b'A' (code c) && leb (code c) b'Z')
      || (leb b'a' (code c) && leb (code c) b'z')
      || (leb b'0' (code c) && leb (code c) b'9')
      || code c == 95
      || code c == 45)
    && token_characters s

unfoldable pub is_token : String → Bool
unfolding token_characters utf16_length
is_token token =
    leb 32 (utf16_length token)
    && leb (utf16_length token) 512
    && starts_with token "p6r1_"
    && token_characters token

-- `none` is the error VALIDATION_FAILED.
unfoldable pub digest_resume_token : (String → String) → String → Option String
unfolding is_token
digest_resume_token sha256 token = if is_token token then some (sha256 token) else none
