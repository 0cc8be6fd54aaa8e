-- ===== src/Outbox/Claim.antt =====
-- claimOutboxBatch and claimedFromRow of src/db/outbox-operations.ts.
use Prim.Native.String.{compare}
use Prim.Native.Nat.{Ordering}
use template_security_incide.Prelude.{
  ℕ, String, Bool, true, false, not, ◌&&◌, ◌||◌, none, some, List, [], ◌∷◌, any, map, take,
  where_rows, update_rows, ltb, leb, ◌==◌, nat_eq, string_eq, option_eq, if◌then◌else◌,
}
use template_security_incide.Schemas.Events.{DomainEvent, parse_domain_event}
use template_security_incide.Store.Rows.{Db, OutboxRow}
use template_security_incide.Incidents.Start.{unresolved}

pub record ClaimInput : Type 0 where
  pub now : ℕ
  pub lease_until : ℕ
  pub limit : ℕ

-- The lease token is the instant that the lease ends.
pub data ClaimedOutboxEvent : Type 0 where
  valid : (event : DomainEvent) (lease_token attempt_count : ℕ) → ClaimedOutboxEvent
  invalid : (id : String) (lease_token attempt_count : ℕ) → ClaimedOutboxEvent

-- SELECT 1 FROM dead_letter_events WHERE source_outbox_id = ? AND resolved_at IS NULL
unfoldable pub has_unresolved_outbox_dead_letter : String → Db → Bool
has_unresolved_outbox_dead_letter outbox_id db = any (unresolved outbox_id) db.dead_letter_events

-- published_at IS NULL AND available_at <= now
abbrev pub is_due : ℕ → OutboxRow → Bool
is_due now o = o.published_at == none && leb o.available_at now

unfoldable pub is_claimable : ℕ → Db → OutboxRow → Bool
is_claimable now db o = is_due now o && not (has_unresolved_outbox_dead_letter o.id db)

-- ORDER BY occurred_at, id
abbrev string_before : String → String → Bool
string_before s t = elim (compare s t) [ Ordering.gt ↦ false | _ ↦ true ]

unfoldable pub before : OutboxRow → OutboxRow → Bool
before a b =
    ltb a.occurred_at b.occurred_at || (a.occurred_at == b.occurred_at && string_before a.id b.id)

unfoldable pub insert_ordered : OutboxRow → List OutboxRow → List OutboxRow
insert_ordered o [] = o ∷ []
insert_ordered o (p ∷ rest) =
    let later = insert_ordered o rest in if before o p then o ∷ p ∷ rest else p ∷ later

unfoldable pub ordered : List OutboxRow → List OutboxRow
ordered [] = []
ordered (o ∷ rest) = insert_ordered o (ordered rest)

-- The identifiers that the inner SELECT answers.
unfoldable pub batch : ClaimInput → Db → List String
batch input db =
    map (λ o. o.id)
      (take input.limit (ordered (where_rows (is_claimable input.now db) db.outbox_events)))

-- The rows that the UPDATE meets.
unfoldable pub is_claimed : ClaimInput → Db → OutboxRow → Bool
is_claimed input db o = any (λ id. id == o.id) (batch input db) && is_due input.now o

abbrev pub leased : ℕ → OutboxRow → OutboxRow
leased lease_until o = record o { available_at = lease_until }

unfoldable pub claimed_rows : ClaimInput → Db → List OutboxRow
claimed_rows input db =
    map (leased input.lease_until) (where_rows (is_claimed input db) db.outbox_events)

unfoldable pub leased_db : ClaimInput → Db → Db
leased_db input db = record db {
  outbox_events = update_rows (is_claimed input db) (leased input.lease_until) db.outbox_events;
}

abbrev pub event_of : OutboxRow → DomainEvent
event_of o = record {
  type = o.type;
  run_id = o.run_id;
  event_id = o.id;
  occurred_at = o.occurred_at;
  incident_id = o.incident_id;
  tenant_id = o.tenant_id;
  correlation_id = o.correlation_id;
  causation_id = o.causation_id;
  payload = o.payload;
}

unfoldable pub claimed_from_row : ℕ → OutboxRow → ClaimedOutboxEvent
claimed_from_row lease_token o = elim (parse_domain_event (event_of o)) [
  | none ↦ invalid o.id lease_token o.attempt_count
  | some event ↦ valid event lease_token o.attempt_count
]

unfoldable pub claim_outbox_batch : ClaimInput → Db → List ClaimedOutboxEvent × Db
claim_outbox_batch input db =
    (map (claimed_from_row input.lease_until) (claimed_rows input db), leased_db input db)

-- Whether the answer has the row with this identifier.
unfoldable pub claims : ClaimInput → Db → String → Bool
claims input db id = any (λ o. o.id == id) (claimed_rows input db)

-- Opens the statements of a claim.
unfoldable pub claiming : Unit {0}
unfolding claim_outbox_batch claims claimed_rows leased_db is_claimed batch ordered insert_ordered
    before is_claimable has_unresolved_outbox_dead_letter any where_rows update_rows
claiming = tt
