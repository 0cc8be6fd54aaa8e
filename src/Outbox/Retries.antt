-- ===== src/Outbox/Retries.antt =====
-- What becomes of a row whose publication has failed: it waits, or it is given up.
use template_security_incide.Prelude.{
  ℕ, ◌+◌, ◌*◌, ◌^◌, ◌-◌, ◌≤◌, ◌<◌, String, true, false, some, List, [], ◌∷◌, ◌++◌, ◌≡◌, refl, ◌∙◌,
  any, first_row, update_rows, ◌==◌, nat_eq, string_eq, str_eq_iff, eq_refl, Option-cases, inl, inr,
  arith, option_eq, min, max, ap,
}
use native.Mathlib.Nat.{mul-le-mul_left}
use template_security_incide.Store.Rows.{Db, OutboxRow, DeadLetterRow, WorkflowRunRow}
use template_security_incide.Incidents.Start.{unresolved}
use template_security_incide.Outbox.Claim.{
  ClaimInput, is_claimed, claims, has_unresolved_outbox_dead_letter,
}
use template_security_incide.Outbox.Backoff.{jittered, backoff_with_deterministic_jitter}
use template_security_incide.Outbox.Settle.{
  FailureInput, retry, dead_letter, workflow_run_exists, failure_text, is_leased,
  mark_outbox_published, record_outbox_failure, record_failure_of, update_outbox,
  insert_dead_letter, dead_letter_of, dead_letter_id, failed_once_more, available_again,
}
use template_security_incide.Outbox.Rows.{Distinct, row_is, row_is-update, first_row-eq-some}
use template_security_incide.Outbox.Selection.{dead_letter_not_claimed}
use template_security_incide.Outbox.Leases.{
  claims-row_is, unleased, mark_outbox_published-held, published_not_claimed,
}

-- The jitter is between three quarters and five quarters.
jittered-bounds :
    (e seed : ℕ)
    → seed < 65536
    → (4 * jittered e seed ≤ 5 * e) × (3 * e < 4 * (jittered e seed + 1))
unfolding jittered
jittered-bounds e seed h =
    let most : seed ≤ 65535 = omega (arith, h) in
    let seeded : e * seed ≤ e * 65535 = mul-le-mul_left e most in
    (omega (arith, seeded), omega (arith, seeded))

module _ (seed_of : String → ℕ) where
  -- With a seed of two bytes, a row that has failed is tried again after at least a millisecond,
  -- and after at most five quarters of the cap, or one millisecond where those are less.
  pub backoff-bounds :
      (id : String) (attempt base_ms cap_ms : ℕ)
      → seed_of id < 65536
      → (1 ≤ backoff_with_deterministic_jitter seed_of id attempt base_ms cap_ms)
        × (4 * backoff_with_deterministic_jitter seed_of id attempt base_ms cap_ms
            ≤ max 4 (5 * cap_ms))
  unfolding backoff_with_deterministic_jitter
  backoff-bounds id attempt base_ms cap_ms seeded =
      let exponential : ℕ = min cap_ms (base_ms * 2 ^ (attempt - 1)) in
      let (most, least) = jittered-bounds exponential (seed_of id) seeded in
      (omega arith, omega (arith, most))

  retry_written :
      (f : FailureInput) (row : OutboxRow) (db : Db) {db' : Db}
      → record_failure_of seed_of f row db ≡ (retry, db')
      → (row.attempt_count + 1 < f.max_attempts)
        × (db'.outbox_events
            ≡ update_rows
                (is_leased f.id f.lease_token)
                (λ o. record (failed_once_more (row.attempt_count + 1) f.error_code o) {
                  available_at = available_again seed_of f (row.attempt_count + 1);
                })
                db.outbox_events)
  unfolding record_failure_of update_outbox mark_outbox_published
  retry_written f row db h = elim (Option-cases (db.workflow_runs f.id)) [
    | inl new ↦ ground arith
    | inr (run, there) ↦ ground arith
  ]

  -- In an outbox with distinct identifiers, a row that the holder of its lease finds to be tried
  -- again has attempts left, and no claim made before its backoff ends gets it.
  pub retry_waits :
      (f : FailureInput) (input : ClaimInput) (db : Db) {db' : Db} {row : OutboxRow}
      → Distinct db.outbox_events
      → first_row (is_leased f.id f.lease_token) db.outbox_events ≡ some row
      → record_outbox_failure seed_of f db ≡ (retry, db')
      → input.now < available_again seed_of f (row.attempt_count + 1)
      → (row.attempt_count + 1 < f.max_attempts) × (claims input db' f.id ≡ false)
  unfolding record_outbox_failure
  retry_waits f input db {db'} {row} distinct found h early =
      let (leased_, some_) = first_row-eq-some _ _ found in
      let settled =
        row_is-update f.id (is_leased f.id f.lease_token) (is_claimed input db')
          (λ o. record (failed_once_more (row.attempt_count + 1) f.error_code o) {
            available_at = available_again seed_of f (row.attempt_count + 1);
          })
          db.outbox_events distinct (λ o. refl) (λ o. unfold is_claimed in ground arith)
          (unleased f.id f.lease_token _ ∙ some_) in
      let (left, written) = retry_written f row db {db' = db'} (ground arith) in
      (
        left,
        claims-row_is input db' f.id ∙ ap (row_is f.id (is_claimed input db')) written ∙ settled,
      )

  dead_letter_written :
      (f : FailureInput) (row : OutboxRow) (db : Db) {db' : Db}
      → any (λ d. d.id == dead_letter_id row.id) db.dead_letter_events ≡ false
      → record_failure_of seed_of f row db ≡ (dead_letter, db')
      → (f.max_attempts ≤ row.attempt_count + 1)
        × (db'.dead_letter_events
            ≡ db.dead_letter_events
              ++ dead_letter_of row (failure_text f.error_code) (row.attempt_count + 1) f.now ∷ [])
  unfolding record_failure_of update_outbox insert_dead_letter mark_outbox_published
  dead_letter_written f row db fresh h = elim (Option-cases (db.workflow_runs f.id)) [
    | inl new ↦ ground arith
    | inr (run, there) ↦ ground arith
  ]

  unresolved-last :
      (id : String) (letters : List DeadLetterRow) (d : DeadLetterRow)
      → unresolved id d ≡ true
      → any (unresolved id) (letters ++ d ∷ []) ≡ true
  unfolding any
  unresolved-last id [] d h = ground arith
  unresolved-last id (e ∷ rest) d h = let ih = unresolved-last id rest d h in ground (arith, ih)

  -- A row that the holder of its lease finds given up has used up its attempts, and no claim from
  -- the database that is left gets it, if it has had no dead letter before.
  pub dead_letter_stops :
      (f : FailureInput) (input : ClaimInput) (db : Db) {db' : Db} {row : OutboxRow}
      → first_row (is_leased f.id f.lease_token) db.outbox_events ≡ some row
      → any (λ d. d.id == dead_letter_id row.id) db.dead_letter_events ≡ false
      → record_outbox_failure seed_of f db ≡ (dead_letter, db')
      → (f.max_attempts ≤ row.attempt_count + 1) × (claims input db' f.id ≡ false)
  unfolding record_outbox_failure has_unresolved_outbox_dead_letter
  dead_letter_stops f input db {db'} {row} found fresh h =
      let (held, some_) = first_row-eq-some _ _ found in
      let same : row.id ≡ f.id = (str_eq_iff row.id f.id).0 (unfold is_leased in ground arith) in
      let (spent, written) = dead_letter_written f row db {db' = db'} fresh (ground arith) in
      (
        spent,
        dead_letter_not_claimed input db' f.id
            (rw (written, same) (unresolved-last f.id db.dead_letter_events _ (simp eq_refl))),
      )

  mark_outbox_published-letters :
      (id : String) (token at : ℕ) (db : Db)
      → (mark_outbox_published id token at db).1.dead_letter_events ≡ db.dead_letter_events
  unfolding mark_outbox_published update_outbox
  mark_outbox_published-letters id token at db = refl

  failure_run_eq :
      (f : FailureInput) (db : Db) {run : WorkflowRunRow} {row : OutboxRow}
      → first_row (is_leased f.id f.lease_token) db.outbox_events ≡ some row
      → db.workflow_runs f.id ≡ some run
      → (mark_outbox_published f.id f.lease_token f.now db).0 ≡ true
      → record_outbox_failure seed_of f db
        ≡ (workflow_run_exists, (mark_outbox_published f.id f.lease_token f.now db).1)
  unfolding record_outbox_failure record_failure_of
  failure_run_eq f db found started one = ground (arith, found, started, one)

  -- In an outbox with distinct identifiers, the holder of a lease that records a failure of a row
  -- whose workflow has started publishes the row: no dead letter is written, and no claim gets
  -- it.
  pub failure_with_run :
      (f : FailureInput) (input : ClaimInput) (db : Db) {run : WorkflowRunRow} {row : OutboxRow}
      → Distinct db.outbox_events
      → first_row (is_leased f.id f.lease_token) db.outbox_events ≡ some row
      → db.workflow_runs f.id ≡ some run
      → ((record_outbox_failure seed_of f db).0 ≡ workflow_run_exists)
        × ((record_outbox_failure seed_of f db).1.dead_letter_events ≡ db.dead_letter_events)
        × (claims input (record_outbox_failure seed_of f db).1 f.id ≡ false)
  failure_with_run f input db {run} {row} distinct found started =
      let there = (first_row-eq-some _ _ found).1 in
      let one = mark_outbox_published-held f.id f.lease_token f.now db distinct there in
      let gone =
        published_not_claimed f.id f.lease_token f.now input db
          {db' = (mark_outbox_published f.id f.lease_token f.now db).1} distinct
          (ap (λ b. (b, (mark_outbox_published f.id f.lease_token f.now db).1)) one) in
      rw (failure_run_eq f db found started one)
        (refl, mark_outbox_published-letters f.id f.lease_token f.now db, gone)
