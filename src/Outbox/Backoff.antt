-- ===== src/Outbox/Backoff.antt =====
-- backoffWithDeterministicJitter of src/db/outbox-operations.ts, in exact arithmetic where the
-- source computes with floating point. The first two bytes of an identifier's SHA-256 are the
-- parameter `seed_of`.
use template_security_incide.Prelude.{ℕ, ◌+◌, ◌*◌, ◌^◌, ◌-◌, ◌/◌, String, min, max}

-- floor (exponential * (0.75 + (seed / 65535) * 0.5))
unfoldable pub jittered : ℕ → (seed : ℕ) → ℕ
jittered exponential seed = (exponential * (3 * 65535 + 2 * seed)) / (4 * 65535)

module _ (seed_of : String → ℕ) where
  unfoldable pub backoff_with_deterministic_jitter : (id : String) (attempt base_ms cap_ms : ℕ) → ℕ
  unfolding jittered
  backoff_with_deterministic_jitter id attempt base_ms cap_ms =
      max 1 (jittered (min cap_ms (base_ms * 2 ^ (attempt - 1))) (seed_of id))
