-- ===== src/RateLimit/Window.antt =====
-- In one window, one client gets at most the configured number of requests through.
use template_security_incide.Prelude.{
  ℕ, zero, suc, ◌+◌, ◌≤◌, ◌<◌, String, false, some, List, [], ◌∷◌, ◌≡◌, subst, ◌&&◌, ◌==◌, nat_eq,
  string_eq, str_eq_iff, if◌then◌else◌, All, arith, Bool-cases, Option-cases, inl, inr,
}
use native.Mathlib.Nat.{lt-div-mul-add}
use template_security_incide.RateLimit.{
  limiter_options, Bucket, Options, Buckets, get, set, cleanup, window_start, take, bucket_key,
}
use template_security_incide.RateLimit.Bounds.{
  Bounded, cleanup-Bounded, take-Bounded, used, take_key-cases, get-set, get-Within,
}

pub record Request : Type 0 where
  pub at : ℕ
  pub route : String
  pub client : String

-- How many requests of this key a sequence of requests gets through.
unfoldable pub allowed_of : Options → (key : String) → List Request → Buckets → ℕ
allowed_of o key [] buckets = 0
allowed_of o key (r ∷ rest) buckets =
    let (taken, after) = take o r.at r.route r.client buckets in
    let more = allowed_of o key rest after in
    if bucket_key r.route r.client == key && taken.allowed then suc more else more

used-Bounded :
    (o : Options) (start : ℕ) (key : String) (buckets : Buckets)
    → Bounded o buckets
    → used start key buckets ≤ o.max_requests
unfolding used
used-Bounded o start key buckets good = elim (Option-cases (get key buckets)) [
  | inl missing ↦ ground arith
  | inr (b, found) ↦ let small = get-Within _ key buckets good.counts found in ground arith
]

used-cleanup :
    (start visits window_ms now : ℕ) (key : String) (buckets : Buckets)
    → now < start + window_ms
    → used start key buckets ≤ used start key (cleanup visits window_ms now buckets)
unfolding used cleanup get
used-cleanup start zero window_ms now key buckets h = omega arith
used-cleanup start (suc n) window_ms now key [] h = omega arith
used-cleanup start (suc n) window_ms now key ((k, b) ∷ rest) h =
    let ih = used-cleanup start n window_ms now key rest h in ground (arith, ih)

get-set_other :
    (key other : String) (v : Bucket) (buckets : Buckets)
    → (key == other) ≡ false
    → get other (set key v buckets) ≡ get other buckets
unfolding get set
get-set_other key other v [] h = ground arith
get-set_other key other v ((k, b) ∷ rest) h = elim (Bool-cases (k == key)) [
  | inl found ↦
      let apart : (k == other) ≡ false = rw ((str_eq_iff k key).0 found) h in simp (found, apart)
  | inr differs ↦ let ih = get-set_other key other v rest h in ground (arith, ih, differs)
]

used-set_same :
    (start : ℕ) (key : String) (v : Bucket) (buckets : Buckets)
    → v.window_start_ms ≡ start
    → used start key (set key v buckets) ≡ v.count
unfolding used
used-set_same start key v buckets h = let e = get-set key v buckets in ground (arith, e, h)

used-set_other :
    (start : ℕ) (key other : String) (v : Bucket) (buckets : Buckets)
    → (key == other) ≡ false
    → used start other (set key v buckets) ≡ used start other buckets
unfolding used
used-set_other start key other v buckets h =
    let e = get-set_other key other v buckets h in ground (arith, e)

-- A request of the window: a use of another key does not touch this one, and one that is let through
-- counts.
take-used :
    (o : Options) (r : Request) (key : String) (buckets : Buckets)
    → limiter_options o ≡ some o
    → Bounded o buckets
    → used (window_start o r.at) key buckets
        + (if bucket_key r.route r.client == key && (take o r.at r.route r.client buckets).0.allowed
            then 1
            else 0)
      ≤ used (window_start o r.at) key (take o r.at r.route r.client buckets).1
unfolding take limiter_options
take-used o r key buckets configured good =
    let w = window_start o r.at in
    let k = bucket_key r.route r.client in
    let inside : r.at < w + o.window_ms = lt-div-mul-add (ground arith) in
    let kept = used-cleanup w o.cleanup_batch_size o.window_ms r.at key buckets inside in
    let clean = cleanup-Bounded o r.at buckets good in
    elim (take_key-cases o r.at k _ (ground arith) clean.size) [
      | inl refused ↦ rw refused (ground (arith, kept))
      | inr (v, taken, now_, count, _, _) ↦ elim (Bool-cases (k == key)) [
        | inl same ↦
            let is_key = (str_eq_iff k key).0 same in
            let clean_buckets = cleanup o.cleanup_batch_size o.window_ms r.at buckets in
            let after =
              subst (λ j. used w j (set k v clean_buckets) ≡ v.count) is_key
                (used-set_same w k v clean_buckets now_) in
            let counted = subst (λ j. v.count ≡ suc (used w j clean_buckets)) is_key count in
            rw taken (ground (arith, after, counted, kept))
        | inr other ↦
            let after =
              used-set_other w k key v (cleanup o.cleanup_batch_size o.window_ms r.at buckets)
                other in
            rw (taken, other) (omega (arith, after, kept))
      ]
    ]

-- For a configured limiter in a bounded state: the requests of one window that a client gets
-- through, with those it has used of the window before, are at most as many as configured.
pub window_limit :
    (o : Options) (start : ℕ) (key : String) (requests : List Request) (buckets : Buckets)
    → limiter_options o ≡ some o
    → All (λ (r : Request). window_start o r.at ≡ start) requests
    → Bounded o buckets
    → used start key buckets + allowed_of o key requests buckets ≤ o.max_requests
unfolding allowed_of
window_limit o start key [] buckets configured inside good =
    omega (arith, used-Bounded o start key buckets good)
window_limit o start key (r ∷ rest) buckets configured inside good =
    let step = take-used o r key buckets configured good in
    let ih =
      window_limit o start key rest (take o r.at r.route r.client buckets).1 configured inside.1
        (take-Bounded o r.at r.route r.client buckets configured good) in
    let here_ : window_start o r.at ≡ start = inside.0 in
    ground (
      arith,
      ih,
      subst
          (λ w.
            used w key buckets
              + (if bucket_key r.route r.client == key
                    && (take o r.at r.route r.client buckets).0.allowed
                  then 1
                  else 0)
            ≤ used w key (take o r.at r.route r.client buckets).1)
          here_ step,
    )
