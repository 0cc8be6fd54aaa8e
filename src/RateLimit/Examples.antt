-- ===== src/RateLimit/Examples.antt =====
-- The limiter at work: two requests a minute, and at most one client.
use template_security_incide.Prelude.{◌+◌, ◌≤◌, List, [], ◌∷◌, ◌≡◌, refl, some, arith}
use template_security_incide.RateLimit.{
  Options, Buckets, take, take_key, cleanup, get, set, limiter_options, bucket_key,
}
use template_security_incide.RateLimit.Bounds.{Bounded, take-Bounded, used}
use template_security_incide.RateLimit.Window.{Request, allowed_of, window_limit}

abbrev two_a_minute : Options
two_a_minute = record {
  max_requests = 2;
  window_ms = 60000;
  max_buckets = 1;
  cleanup_batch_size = 4;
}

configured : limiter_options two_a_minute ≡ some two_a_minute
unfolding limiter_options
configured = refl

abbrev one_used : Buckets
one_used =
    (bucket_key "/webhooks" "socket:10.0.0.1", record { window_start_ms = 60000; count = 1 }) ∷ []

one_used-Bounded : Bounded two_a_minute one_used
one_used-Bounded = record { counts = (omega arith, tt); size = omega arith }

take-Bounded_example :
    Bounded two_a_minute (take two_a_minute 61000 "/webhooks" "socket:10.0.0.1" one_used).1
take-Bounded_example =
    take-Bounded two_a_minute 61000 "/webhooks" "socket:10.0.0.1" one_used configured
      one_used-Bounded

abbrev burst : List Request
burst =
    record { at = 61000; route = "/webhooks"; client = "socket:10.0.0.1" }
    ∷ record { at = 62000; route = "/webhooks"; client = "socket:10.0.0.1" }
    ∷ record { at = 63000; route = "/webhooks"; client = "socket:10.0.0.2" }
    ∷ []

-- One request had been used, one more is let through, the rest is refused.
burst_test : allowed_of two_a_minute (bucket_key "/webhooks" "socket:10.0.0.1") burst one_used ≡ 1
unfolding allowed_of take take_key cleanup get set
burst_test = refl

window_limit_example :
    used 60000 (bucket_key "/webhooks" "socket:10.0.0.1") one_used
      + allowed_of two_a_minute (bucket_key "/webhooks" "socket:10.0.0.1") burst one_used
    ≤ two_a_minute.max_requests
window_limit_example =
    window_limit two_a_minute 60000 (bucket_key "/webhooks" "socket:10.0.0.1") burst one_used
      configured (refl, (refl, (refl, tt))) one_used-Bounded
