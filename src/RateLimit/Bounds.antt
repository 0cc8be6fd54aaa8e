-- ===== src/RateLimit/Bounds.antt =====
-- The limiter's memory and the requests it lets through are bounded.
use template_security_incide.Prelude.{
  ℕ, zero, suc, ◌+◌, ◌≤◌, String, true, false, none, some, [], ◌∷◌, ◌≡◌, refl, leb, ◌==◌, nat_eq,
  string_eq, eq_refl, if◌then◌else◌, length, All, arith, Bool-cases, Option-cases, inl, inr, ◌⊎◌,
}
use template_security_incide.RateLimit.{
  limiter_options, answer, Bucket, Options, Buckets, get, set, cleanup, window_start, take_key,
  take, bucket_key,
}

-- Every bucket counts at most the requests allowed, and there are at most so many buckets.
pub record Bounded (o : Options) (buckets : Buckets) : Type 0 where
  pub counts : All (λ (e : String × Bucket). e.1.count ≤ o.max_requests) buckets
  pub size : length buckets ≤ o.max_buckets

abbrev Within : ℕ → Buckets → Type 0
Within most = All (λ (e : String × Bucket). e.1.count ≤ most)

cleanup-Within :
    (most visits window_ms now : ℕ) (buckets : Buckets)
    → Within most buckets
    → Within most (cleanup visits window_ms now buckets)
unfolding cleanup
cleanup-Within most zero window_ms now buckets h = h
cleanup-Within most (suc n) window_ms now [] h = h
cleanup-Within most (suc n) window_ms now ((k, b) ∷ rest) h =
    elim (Bool-cases (leb (b.window_start_ms + window_ms) now)) [
      | inl ended ↦ rw ended (cleanup-Within most n window_ms now rest h.1)
      | inr open_ ↦ rw open_ (h.0, cleanup-Within most n window_ms now rest h.1)
    ]

length-cleanup :
    (visits window_ms now : ℕ) (buckets : Buckets)
    → length (cleanup visits window_ms now buckets) ≤ length buckets
unfolding cleanup
length-cleanup zero window_ms now buckets = omega arith
length-cleanup (suc n) window_ms now [] = omega arith
length-cleanup (suc n) window_ms now ((k, b) ∷ rest) =
    let ih = length-cleanup n window_ms now rest in ground (arith, ih)

set-Within :
    (most : ℕ) (key : String) (v : Bucket) (buckets : Buckets)
    → v.count ≤ most
    → Within most buckets
    → Within most (set key v buckets)
unfolding set
set-Within most key v [] small h = (small, tt)
set-Within most key v ((k, b) ∷ rest) small h = elim (Bool-cases (k == key)) [
  | inl found ↦ rw found (small, h.1)
  | inr other ↦ rw other (h.0, set-Within most key v rest small h.1)
]

length-set-some :
    (key : String) (v b : Bucket) (buckets : Buckets)
    → get key buckets ≡ some b
    → length (set key v buckets) ≡ length buckets
unfolding get set
length-set-some key v b [] h = cc
length-set-some key v b ((k, c) ∷ rest) h =
    let ih = length-set-some key v b rest in ground (arith, ih)

length-set-none :
    (key : String) (v : Bucket) (buckets : Buckets)
    → get key buckets ≡ none
    → length (set key v buckets) ≡ suc (length buckets)
unfolding get set
length-set-none key v [] h = refl
length-set-none key v ((k, c) ∷ rest) h = let ih = length-set-none key v rest in ground (arith, ih)

pub get-set : (key : String) (v : Bucket) (buckets : Buckets) → get key (set key v buckets) ≡ some v
unfolding get set
get-set key v [] = simp eq_refl
get-set key v ((k, b) ∷ rest) = elim (Bool-cases (k == key)) [
  | inl found ↦ ground arith
  | inr other ↦ let ih = get-set key v rest in ground (arith, ih)
]

pub get-Within :
    (most : ℕ) (key : String) (buckets : Buckets) {b : Bucket}
    → Within most buckets
    → get key buckets ≡ some b
    → b.count ≤ most
unfolding get
get-Within most key [] h found = cc
get-Within most key ((k, c) ∷ rest) {b} h found = elim (Bool-cases (k == key)) [
  | inl here_ ↦ let same : c ≡ b = ground arith in rw (← same) h.0
  | inr other ↦ get-Within most key rest {b = b} h.1 (ground arith)
]

-- What the key has used of the window that starts at `start`.
unfoldable pub used : (start : ℕ) → (key : String) → Buckets → ℕ
used start key buckets = elim (get key buckets) [
  | none ↦ 0
  | some b ↦ if b.window_start_ms == start then b.count else 0
]

-- A request is refused and changes nothing, or it is let through and counted in the current window.
pub take_key-cases :
    (o : Options) (now : ℕ) (key : String) (buckets : Buckets)
    → 1 ≤ o.max_requests
    → length buckets ≤ o.max_buckets
    → (take_key o now key buckets ≡ (answer o now false, buckets))
      ⊎ (v : Bucket) × (take_key o now key buckets ≡ (answer o now true, set key v buckets))
        × (v.window_start_ms ≡ window_start o now)
        × (v.count ≡ suc (used (window_start o now) key buckets))
        × (v.count ≤ o.max_requests)
        × (length (set key v buckets) ≤ o.max_buckets)
unfolding take_key used
take_key-cases o now key buckets some_ size = elim (Option-cases (get key buckets)) [
  | inl missing ↦ elim (Bool-cases (leb o.max_buckets (length buckets))) [
    | inl full ↦ inl (ground arith)
    | inr free ↦
        let v : Bucket = record { window_start_ms = window_start o now; count = 1 } in
        let more = length-set-none key v buckets missing in
        inr (v, ground arith, refl, ground arith, some_, ground arith)
  ]
  | inr (b, found) ↦ elim (Bool-cases (b.window_start_ms == window_start o now)) [
    | inl current ↦ elim (Bool-cases (leb o.max_requests b.count)) [
      | inl spent ↦ inl (ground arith)
      | inr left ↦
          let v : Bucket = record b { count = b.count + 1 } in
          let more = length-set-some key v b buckets found in
          inr (v, ground arith, ground arith, ground arith, ground arith, ground arith)
    ]
    | inr past ↦
        let v : Bucket = record { window_start_ms = window_start o now; count = 1 } in
        let more = length-set-some key v b buckets found in
        inr (v, ground arith, refl, ground arith, some_, ground arith)
  ]
]

pub cleanup-Bounded :
    (o : Options) (now : ℕ) (buckets : Buckets)
    → Bounded o buckets
    → Bounded o (cleanup o.cleanup_batch_size o.window_ms now buckets)
cleanup-Bounded o now buckets good = record {
  counts = cleanup-Within _ o.cleanup_batch_size o.window_ms now buckets good.counts;
  size =
      let less = length-cleanup o.cleanup_batch_size o.window_ms now buckets in
      omega (arith, less, good.size);
}

-- For a configured limiter, every request keeps the state bounded: no bucket counts more than the
-- requests allowed, and there are at most as many buckets as configured.
pub take-Bounded :
    (o : Options) (now : ℕ) (route client : String) (buckets : Buckets)
    → limiter_options o ≡ some o
    → Bounded o buckets
    → Bounded o (take o now route client buckets).1
unfolding take limiter_options
take-Bounded o now route client buckets configured good =
    let clean = cleanup-Bounded o now buckets good in
    elim (take_key-cases o now (bucket_key route client) _ (ground arith) clean.size) [
      | inl refused ↦ rw refused clean
      | inr (v, taken, _, _, small, size) ↦
          rw taken (record { counts = set-Within _ _ v _ small clean.counts; size = size })
    ]
