-- ===== src/RateLimit.antt =====
-- src/webhook-rate-limit.ts: FixedWindowWebhookRateLimiter. The buckets are a Map, here the list of
-- its entries in the order of their insertion; the clock's reading is an argument.
pub mod Bounds
pub mod Window
mod Examples
use Prim.Native.String.{◌++◌ as join}
use template_security_incide.Prelude.{
  ℕ, zero, suc, ◌+◌, ◌-◌, ◌*◌, ◌/◌, String, Bool, true, false, ◌&&◌, Option, none, some, List, [],
  ◌∷◌, ltb, leb, ◌==◌, nat_eq, string_eq, if◌then◌else◌, length, max,
}

pub record Bucket : Type 0 where
  pub window_start_ms : ℕ
  pub count : ℕ

pub record Options : Type 0 where
  pub max_requests : ℕ
  pub window_ms : ℕ
  pub max_buckets : ℕ
  pub cleanup_batch_size : ℕ

abbrev pub Buckets : Type 0
Buckets = List (String × Bucket)

pub record Taken : Type 0 where
  pub allowed : Bool
  pub retry_after_seconds : ℕ

-- Number.MAX_SAFE_INTEGER
abbrev pub max_safe_integer : ℕ
max_safe_integer = 9007199254740991

-- The constructor throws unless every option is a positive safe integer.
unfoldable pub limiter_options : Options → Option Options
limiter_options o =
    if ltb 0 o.max_requests
      && ltb 0 o.window_ms
      && ltb 0 o.max_buckets
      && ltb 0 o.cleanup_batch_size
      && leb o.max_requests max_safe_integer
      && leb o.window_ms max_safe_integer
      && leb o.max_buckets max_safe_integer
      && leb o.cleanup_batch_size max_safe_integer
    then some o
    else none

-- Map.prototype.get
unfoldable pub get : String → Buckets → Option Bucket
get key [] = none
get key ((k, b) ∷ rest) = if k == key then some b else get key rest

-- Map.prototype.set
unfoldable pub set : String → Bucket → Buckets → Buckets
set key v [] = (key, v) ∷ []
set key v ((k, b) ∷ rest) = if k == key then (k, v) ∷ rest else (k, b) ∷ set key v rest

-- The first `visits` buckets are visited, and those whose window has ended are deleted.
unfoldable pub cleanup : (visits window_ms now : ℕ) → Buckets → Buckets
cleanup zero window_ms now buckets = buckets
cleanup (suc visits) window_ms now [] = []
cleanup (suc visits) window_ms now ((k, b) ∷ rest) =
    if leb (b.window_start_ms + window_ms) now
    then cleanup visits window_ms now rest
    else (k, b) ∷ cleanup visits window_ms now rest

abbrev pub window_start : Options → (now : ℕ) → ℕ
window_start o now = (now / o.window_ms) * o.window_ms

abbrev pub bucket_key : (route client : String) → String
bucket_key route client = join route (join "\0" client)

abbrev pub answer : Options → (now : ℕ) → Bool → Taken
answer o now allowed = record {
  allowed = allowed;
  retry_after_seconds = max 1 ((window_start o now + o.window_ms - now + 999) / 1000);
}

unfoldable pub take_key : Options → (now : ℕ) → (key : String) → Buckets → Taken × Buckets
take_key o now key buckets = elim (get key buckets) [
  | some b ↦
      if b.window_start_ms == window_start o now
      then if leb o.max_requests b.count
        then (answer o now false, buckets)
        else (answer o now true, set key (record b { count = b.count + 1 }) buckets)
      else (
        answer o now true,
        set key (record { window_start_ms = window_start o now; count = 1 }) buckets,
      )
  | none ↦ if leb o.max_buckets (length buckets) then (answer o now false, buckets) else (
    answer o now true,
    set key (record { window_start_ms = window_start o now; count = 1 }) buckets,
  )
]

unfoldable pub take : Options → (now : ℕ) → (route client : String) → Buckets → Taken × Buckets
take o now route client buckets =
    take_key o now (bucket_key route client) (cleanup o.cleanup_batch_size o.window_ms now buckets)
