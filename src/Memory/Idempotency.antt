-- ===== src/Memory/Idempotency.antt =====
-- memory/repository.go: a transaction that is sent again under its idempotency key.
use financial_crime_complian.Common.{
  String, List, [], ◌∷◌, ◌≡◌, refl, sym, ap, ◌∙◌, true, arith, length, select, ◌==◌, none, some,
  inl, inr, Option-cases, Bool-cases,
}
use mathlib.Core.Path.{subst, subst₂}
use financial_crime_complian.Common.Dict.{get, get-put_self, values}
use financial_crime_complian.Domain.Errors.{Error}
use financial_crime_complian.Domain.Audit.{AuditEvent}
use financial_crime_complian.Domain.Monitoring.{Alert}
use financial_crime_complian.Domain.Transaction.{
  Transaction, SamePayload, same_ingestion_payload, same_ingestion_payload_iff,
}
use financial_crime_complian.Effects.{ok, err}
use financial_crime_complian.Application.Transactions.{IngestTransactionResult}
use financial_crime_complian.Memory.{Repository}
use financial_crime_complian.Memory.Transactions.{
  create_transaction, store_transaction, store_alerts, or_zero,
}

-- The key names a stored transaction with the payload of `t`.
pub record IsKnown (r : Repository) (t stored : Transaction) : Type 0 where
  pub key : String
  pub by_key : get t.idempotency_key r.idempotency ≡ some key
  pub by_id : or_zero (get key r.transactions) ≡ stored
  pub payload : same_ingestion_payload stored t ≡ true

store_alerts_keeps :
    (alerts : List Alert) (vs : List AuditEvent) (r : Repository)
    → ((store_alerts alerts vs r).transactions ≡ r.transactions)
      × ((store_alerts alerts vs r).idempotency ≡ r.idempotency)
unfolding store_alerts
store_alerts_keeps [] vs r = (refl, refl)
store_alerts_keeps (a ∷ alerts) [] r = (refl, refl)
store_alerts_keeps (a ∷ alerts) (v ∷ vs) r = store_alerts_keeps alerts vs _

same_payload_refl : (t : Transaction) → same_ingestion_payload t t ≡ true
same_payload_refl t = (same_ingestion_payload_iff t t).1 (record {
  external_ref = refl;
  customer_id = refl;
  direction = refl;
  amount_minor = refl;
  currency = refl;
  counterparty_country = refl;
  occurred_at = refl;
})

SamePayload-trans : {t u w : Transaction} → SamePayload t u → SamePayload u w → SamePayload t w
SamePayload-trans h k = record {
  external_ref = h.external_ref ∙ k.external_ref;
  customer_id = h.customer_id ∙ k.customer_id;
  direction = h.direction ∙ k.direction;
  amount_minor = h.amount_minor ∙ k.amount_minor;
  currency = h.currency ∙ k.currency;
  counterparty_country = h.counterparty_country ∙ k.counterparty_country;
  occurred_at = h.occurred_at ∙ k.occurred_at;
}

SamePayload-sym : {t u : Transaction} → SamePayload t u → SamePayload u t
SamePayload-sym h = record {
  external_ref = sym h.external_ref;
  customer_id = sym h.customer_id;
  direction = sym h.direction;
  amount_minor = sym h.amount_minor;
  currency = sym h.currency;
  counterparty_country = sym h.counterparty_country;
  occurred_at = sym h.occurred_at;
}

module _ (t : Transaction) (v : AuditEvent) (alerts : List Alert) (vs : List AuditEvent)
    (r : Repository) where
  store_transaction-IsKnown : IsKnown (store_transaction t v alerts vs r).1 t t
  unfolding store_transaction
  store_transaction-IsKnown = record {
    key = t.id;
    by_key = ap (get _) (store_alerts_keeps alerts vs _).1 ∙ get-put_self _ _ _;
    by_id = ap or_zero (ap (get _) (store_alerts_keeps alerts vs _).0 ∙ get-put_self _ _ _);
    payload = same_payload_refl t;
  }

  replayed-IsKnown :
      (key : String) (res : IngestTransactionResult) (s : Repository)
      → get t.idempotency_key r.idempotency ≡ some key
      → create_transaction t v alerts vs r ≡ (ok res, s)
      → (r ≡ s)
        × (or_zero (get key r.transactions) ≡ res.transaction)
        × (same_ingestion_payload res.transaction t ≡ true)
  unfolding create_transaction
  replayed-IsKnown key res s e h = ground arith

  stored-IsKnown :
      (res : IngestTransactionResult) (s : Repository)
      → get t.idempotency_key r.idempotency ≡ none
      → create_transaction t v alerts vs r ≡ (ok res, s)
      → ((store_transaction t v alerts vs r).1 ≡ s) × (t ≡ res.transaction)
  unfolding create_transaction
  stored-IsKnown res s e h = ground arith

  -- A transaction that has been created is known afterwards.
  pub created-IsKnown :
      (res : IngestTransactionResult) (s : Repository)
      → create_transaction t v alerts vs r ≡ (ok res, s)
      → IsKnown s t res.transaction
  created-IsKnown res s h = elim (Option-cases (get t.idempotency_key r.idempotency)) [
    | inl e ↦
        let p = stored-IsKnown res s e h in
        subst₂ (λ s x. IsKnown s t x) p.0 p.1 store_transaction-IsKnown
    | inr (key, e) ↦
        let p = replayed-IsKnown key res s e h in
        subst (λ s. IsKnown s t res.transaction) p.0
          (record { key = key; by_key = e; by_id = p.1; payload = p.2 })
  ]

-- A known transaction is replayed, and nothing is written.
pub known-replays :
    (r : Repository) (t u stored : Transaction) (v : AuditEvent) (alerts : List Alert)
    (vs : List AuditEvent)
    → IsKnown r t stored
    → u.idempotency_key ≡ t.idempotency_key
    → SamePayload t u
    → length alerts ≡ length vs
    → create_transaction u v alerts vs r ≡ (
      ok (record {
        transaction = stored;
        alerts = select (λ a. a.transaction_id == stored.id) (values r.alerts);
        replayed = true;
      }),
      r,
    )
unfolding create_transaction
known-replays r t u stored v alerts vs k e p n =
    let same : same_ingestion_payload stored u ≡ true =
      (same_ingestion_payload_iff stored u).1
        (SamePayload-trans ((same_ingestion_payload_iff stored t).0 k.payload) p) in
    ground (arith, same)

-- A known key with another payload is refused, and nothing is written.
pub known-conflicts :
    (r : Repository) (t u stored : Transaction) (v : AuditEvent) (alerts : List Alert)
    (vs : List AuditEvent)
    → IsKnown r t stored
    → u.idempotency_key ≡ t.idempotency_key
    → ¬ SamePayload t u
    → length alerts ≡ length vs
    → create_transaction u v alerts vs r ≡ (err Error.idempotency_conflict, r)
unfolding create_transaction
known-conflicts r t u stored v alerts vs k e p n =
    elim (Bool-cases (same_ingestion_payload stored u)) [
      | inl same ↦ absurd (
          p (
            SamePayload-trans (SamePayload-sym ((same_ingestion_payload_iff stored t).0 k.payload))
              ((same_ingestion_payload_iff stored u).0 same)))
      | inr other ↦ ground (arith, other)
    ]
