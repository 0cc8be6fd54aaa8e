-- ===== src/Containment/Ledger.antt =====
-- What the operations of the provider's ledger leave of its entries and of the attempts.
use template_security_incide.Prelude.{
  String, ◌≡◌, refl, sym, ap, ◌∙◌, subst, ◌⊎◌, inl, inr, Bool, true, false, not, ◌&&◌, none, some,
  List, [], ◌∷◌, ◌++◌, any, first_row, ◌==◌, string_eq, update_rows, Bool-cases, Option-cases,
  arith,
}
use template_security_incide.Schemas.Containment.{EffectStatus, effect_eq}
use template_security_incide.Store.ContainmentRows.{EffectRow}
use template_security_incide.Store.Rows.{Db}
use template_security_incide.Store.Tx.{
  ok, continue-elim, then_branch, else_branch, read-elim, throw_if-elim, expect-elim, pure-eq-ok,
}
use template_security_incide.Store.ContainmentInversion.{change_effect-eq-ok, change_effect-elim}
use template_security_incide.Containment.Steps.{KeepsLedger, has_effect}
use template_security_incide.Containment.Claims.{has_effect-update}
use template_security_incide.Containment.Effects.{
  ProviderEffectBinding, EffectClaim, effect_of, is_authoritative, insert_effect, inherit_fence,
  new_effect, effect_answer, claim_provider_effect, FinishEffectInput, finish_provider_effect,
  ReconcileEffectInput, reconcile_provider_effect,
}

-- The operation writes to the ledger only, and no entry goes away.
abbrev pub OnLedger : Db → Db → Type 0
OnLedger db db' =
    (db'.containment_action_attempts ≡ db.containment_action_attempts) × KeepsLedger db db'

pub OnLedger-trans : (a b c : Db) → OnLedger a b → OnLedger b c → OnLedger a c
OnLedger-trans a b c (same, keeps) (same', keeps') =
    (same' ∙ same, λ key h. keeps' key (keeps key h))

effect_of-none :
    (key : String) (rows : List EffectRow)
    → first_row (λ (e : EffectRow). e.idempotency_key == key) rows ≡ none
    → has_effect key rows ≡ false
unfolding first_row any
effect_of-none key [] h = refl
effect_of-none key (e ∷ rest) h = elim (Bool-cases (e.idempotency_key == key)) [
  | inl here ↦ ground arith
  | inr other ↦ let ih = effect_of-none key rest (ground (arith, h, other)) in ground (arith, ih)
]

effect_of-some :
    (key : String) (rows : List EffectRow) (r : EffectRow)
    → first_row (λ (e : EffectRow). e.idempotency_key == key) rows ≡ some r
    → has_effect key rows ≡ true
unfolding first_row any
effect_of-some key [] r h = cc
effect_of-some key (e ∷ rest) r h = elim (Bool-cases (e.idempotency_key == key)) [
  | inl here ↦ ground arith
  | inr other ↦ let ih = effect_of-some key rest r (ground (arith, h, other)) in ground (arith, ih)
]

has_effect-append :
    (key : String) (rows : List EffectRow) (e : EffectRow)
    → has_effect key rows ≡ true
    → has_effect key (rows ++ e ∷ []) ≡ true
unfolding any
has_effect-append key [] e h = cc
has_effect-append key (x ∷ rest) e h = elim (Bool-cases (x.idempotency_key == key)) [
  | inl here ↦ ground arith
  | inr other ↦
      let ih = has_effect-append key rest e (ground (arith, h, other)) in ground (arith, ih)
]

change_effect-OnLedger :
    (where_ : EffectRow → Bool) (set_ : EffectRow → EffectRow) (db db' : Db)
    → ((e : EffectRow) → (set_ e).idempotency_key ≡ e.idempotency_key)
    → db' ≡ record db { provider_effect_ledger = update_rows where_ set_ db.provider_effect_ledger }
    → OnLedger db db'
change_effect-OnLedger where_ set_ db db' keeps changed = (
  ap (λ (d : Db). d.containment_action_attempts) changed,
  λ key there.
      rw (ap (λ (d : Db). d.provider_effect_ledger) changed)
        (has_effect-update key where_ set_ db.provider_effect_ledger keeps there),
)

module _ (input : ProviderEffectBinding) where
  insert_effect-cases :
      (db mid : Db) (inserted : Bool)
      → insert_effect input db ≡ ok (inserted, mid)
      → ((mid ≡ db) × (inserted ≡ false))
        ⊎ ((effect_of input.idempotency_key db ≡ none)
            × (mid ≡ record db {
              provider_effect_ledger = db.provider_effect_ledger ++ new_effect input ∷ [];
            }))
  unfolding insert_effect
  insert_effect-cases db mid inserted h = elim (Option-cases (effect_of input.idempotency_key db)) [
    | inr (e, found) ↦ inl (ground arith, ground arith)
    | inl gone ↦ elim (Bool-cases inserted) [
      | inl new ↦ inr (gone, ground arith)
      | inr old ↦ inl (ground arith, old)
    ]
  ]

  -- A row is inserted only where the key has none.
  insert_effect-OnLedger :
      (db mid : Db) (inserted : Bool)
      → insert_effect input db ≡ ok (inserted, mid)
      → OnLedger db mid
        × (inserted ≡ true → has_effect input.idempotency_key db.provider_effect_ledger ≡ false)
  unfolding effect_of
  insert_effect-OnLedger db mid inserted h = elim (insert_effect-cases db mid inserted h) [
    | inl (same, old) ↦ (
      (
        ap (λ (d : Db). d.containment_action_attempts) same,
        λ key there. rw (ap (λ (d : Db). d.provider_effect_ledger) same) there,
      ),
      λ new. cc,
    )
    | inr (gone, grown) ↦ (
      (
        ap (λ (d : Db). d.containment_action_attempts) grown,
        λ key there.
            rw (ap (λ (d : Db). d.provider_effect_ledger) grown)
              (has_effect-append key db.provider_effect_ledger (new_effect input) there),
      ),
      λ new. effect_of-none input.idempotency_key db.provider_effect_ledger gone,
    )
  ]

  inherit_fence-OnLedger :
      (e : EffectRow) (db mid : Db) {u : Unit {0}}
      → inherit_fence input e db ≡ ok (u, mid)
      → OnLedger db mid
  unfolding inherit_fence
  inherit_fence-OnLedger e db mid {u} h =
      elim (Bool-cases
        (e.status == EffectStatus.uncertain && not (e.fence_token == input.fence_token))) [
          | inl moves ↦
              change_effect-OnLedger _ _ db mid (λ r. refl)
                (change_effect-eq-ok _ _ db mid {u = u} (then_branch _ _ _ db _ moves h))
          | inr stays ↦
              let same : mid ≡ db =
                (pure-eq-ok tt db {a = u} {db' = mid} (else_branch _ _ _ db _ stays h)).1 in
              (
                ap (λ (d : Db). d.containment_action_attempts) same,
                λ key there. rw (ap (λ (d : Db). d.provider_effect_ledger) same) there,
              )
        ]

  -- A claim that answers: the operation is authoritative, and a mutation may be sent only where the
  -- key had no entry; it has one afterwards.
  abbrev pub EffectStep : Db → EffectClaim → Db → Type 0
  EffectStep db answer db' =
      OnLedger db db'
      × (is_authoritative input db ≡ true)
      × (has_effect input.idempotency_key db'.provider_effect_ledger ≡ true)
      × (answer ≡ EffectClaim.claimed
          → has_effect input.idempotency_key db.provider_effect_ledger ≡ false)

  effect_answer-claimed :
      (inserted : Bool) (status : EffectStatus)
      → effect_answer input inserted status ≡ EffectClaim.claimed
      → inserted ≡ true
  effect_answer-claimed inserted EffectStatus.succeeded h = cc
  effect_answer-claimed inserted EffectStatus.uncertain h = cc
  effect_answer-claimed true EffectStatus.claimed h = refl
  effect_answer-claimed false EffectStatus.claimed h = cc
  effect_answer-claimed true EffectStatus.failed h = refl
  effect_answer-claimed false EffectStatus.failed h = cc

  pub claim_provider_effect-Step :
      (db db' : Db) (answer : EffectClaim)
      → claim_provider_effect input db ≡ ok (answer, db')
      → EffectStep db answer db'
  unfolding claim_provider_effect effect_of
  claim_provider_effect-Step db db' answer h = read-elim _ _ _ _ h λ h1.
      throw_if-elim _ _ _ _ _ h1 λ authoritative h2.
        continue-elim _ _ _ h2 λ inserted mid insertion h3. read-elim _ _ _ _ h3 λ h4.
          expect-elim _ _ _ _ _ h4 λ e found h5. throw_if-elim _ _ _ _ _ h5 λ same h6.
            continue-elim _ _ _ h6 λ u last moved h7.
              let (on_mid, fresh) = insert_effect-OnLedger db mid inserted insertion in
              let (is_answer, is_last) = pure-eq-ok _ _ h7 in
              let on_last = inherit_fence-OnLedger e mid last {u = u} moved in
              let there =
                on_last.1 input.idempotency_key
                  (effect_of-some input.idempotency_key mid.provider_effect_ledger e found) in
              (
                subst (OnLedger db) (sym is_last) (OnLedger-trans db mid last on_mid on_last),
                ground (arith, authoritative),
                rw (ap (λ (d : Db). d.provider_effect_ledger) is_last) there,
                λ claims. fresh (effect_answer-claimed inserted e.status (sym is_answer ∙ claims)),
              )

pub finish_provider_effect-OnLedger :
    (input : FinishEffectInput) (db db' : Db) {u : Unit {0}}
    → finish_provider_effect input db ≡ ok (u, db')
    → OnLedger db db'
unfolding finish_provider_effect
finish_provider_effect-OnLedger input db db' {u} h =
    change_effect-OnLedger _ _ db db' (λ e. refl) (change_effect-eq-ok _ _ db db' {u = u} h)

pub reconcile_provider_effect-OnLedger :
    (input : ReconcileEffectInput) (db db' : Db) (answer : EffectStatus)
    → reconcile_provider_effect input db ≡ ok (answer, db')
    → OnLedger db db'
unfolding reconcile_provider_effect
reconcile_provider_effect-OnLedger input db db' answer h = elim (Bool-cases input.succeeded) [
  | inr unsure ↦
      let same : db' ≡ db =
        (pure-eq-ok EffectStatus.uncertain db {a = answer} {db' = db'}
          (ground (arith, h, unsure))).1 in
      (
        ap (λ (d : Db). d.containment_action_attempts) same,
        λ key there. rw (ap (λ (d : Db). d.provider_effect_ledger) same) there,
      )
  | inl sure ↦
      change_effect-elim db _ _ _ _
        (else_branch (not input.succeeded) _ _ db _ (ground (arith, sure)) h)
        λ done.
          let same = (pure-eq-ok _ _ done).1 in change_effect-OnLedger _ _ db db' (λ e. refl) same
]
