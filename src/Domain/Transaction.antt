-- ===== src/Domain/Transaction.antt =====
-- internal/domain/transaction.go: transactions, and when two carry the same payload.
use financial_crime_complian.Common.{
  String, Bool, true, false, ◌&&◌, ◌==◌, ◌≡◌, ◌↔◌, refl, ◌-◌, ◌%◌, arith, eqb, eq_iff,
}
use financial_crime_complian.Common.Int.{ℤ, int_eq}
use financial_crime_complian.Domain.Audit.{Time}

pub data TransactionDirection : Type 0 where
  inbound outbound : TransactionDirection
  other : String → TransactionDirection

abbrev pub direction_text : TransactionDirection → String
direction_text TransactionDirection.inbound = "inbound"
direction_text TransactionDirection.outbound = "outbound"
direction_text (TransactionDirection.other s) = s

abbrev pub direction_eq : TransactionDirection → TransactionDirection → Bool
direction_eq TransactionDirection.inbound TransactionDirection.inbound = true
direction_eq TransactionDirection.outbound TransactionDirection.outbound = true
direction_eq (TransactionDirection.other s) (TransactionDirection.other t) = s == t
direction_eq _ _ = false

pub record Transaction : Type 0 where
  pub id : String
  pub idempotency_key : String
  pub external_ref : String
  pub customer_id : String
  pub direction : TransactionDirection
  pub amount_minor : ℤ
  pub currency : String
  pub counterparty_country : String
  pub occurred_at : Time
  pub ingested_at : Time
  pub ingested_by : String

-- Transaction.SameIngestionPayload
unfoldable pub same_ingestion_payload : Transaction → Transaction → Bool
same_ingestion_payload t u =
    t.external_ref == u.external_ref
    && t.customer_id == u.customer_id
    && direction_eq t.direction u.direction
    && int_eq t.amount_minor u.amount_minor
    && t.currency == u.currency
    && t.counterparty_country == u.counterparty_country
    && eqb t.occurred_at u.occurred_at

-- t.Truncate(time.Microsecond)
abbrev pub truncate : Time → Time
truncate t = t - t % 1000

-- The fields that the client sends, in agreement.
pub record SamePayload (t u : Transaction) : Type 0 where
  pub external_ref : t.external_ref ≡ u.external_ref
  pub customer_id : t.customer_id ≡ u.customer_id
  pub direction : t.direction ≡ u.direction
  pub amount_minor : t.amount_minor ≡ u.amount_minor
  pub currency : t.currency ≡ u.currency
  pub counterparty_country : t.counterparty_country ≡ u.counterparty_country
  pub occurred_at : t.occurred_at ≡ u.occurred_at

direction_eq_refl : (d : TransactionDirection) → direction_eq d d ≡ true
direction_eq_refl TransactionDirection.inbound = refl
direction_eq_refl TransactionDirection.outbound = refl
direction_eq_refl (TransactionDirection.other s) = (eq_iff s s).1 refl

direction_eq_sound : (d e : TransactionDirection) → direction_eq d e ≡ true → d ≡ e
direction_eq_sound (TransactionDirection.other s) (TransactionDirection.other t) h =
    ground (arith, eq_iff s t)
direction_eq_sound TransactionDirection.inbound e h = ground arith
direction_eq_sound TransactionDirection.outbound e h = ground arith
direction_eq_sound _ _ h = cc

int_eq_refl : (z : ℤ) → int_eq z z ≡ true
int_eq_refl (ℤ.pos n) = ground arith
int_eq_refl (ℤ.negsuc n) = ground arith

int_eq_sound : (z w : ℤ) → int_eq z w ≡ true → z ≡ w
int_eq_sound (ℤ.pos n) w h = ground arith
int_eq_sound (ℤ.negsuc n) w h = ground arith

same_ingestion_payload_complete :
    (t u : Transaction) → SamePayload t u → same_ingestion_payload t u ≡ true
unfolding same_ingestion_payload
same_ingestion_payload_complete t u h =
    rw
      (
        h.external_ref, h.customer_id, h.direction, h.amount_minor, h.currency,
        h.counterparty_country, h.occurred_at,
      )
      (ground (
        arith,
        eq_iff u.external_ref u.external_ref,
        eq_iff u.customer_id u.customer_id,
        direction_eq_refl u.direction,
        int_eq_refl u.amount_minor,
        eq_iff u.currency u.currency,
        eq_iff u.counterparty_country u.counterparty_country,
      ))

same_ingestion_payload_sound :
    (t u : Transaction) → same_ingestion_payload t u ≡ true → SamePayload t u
unfolding same_ingestion_payload
same_ingestion_payload_sound t u h = ground (
  arith,
  eq_iff t.external_ref u.external_ref,
  eq_iff t.customer_id u.customer_id,
  direction_eq_sound t.direction u.direction,
  int_eq_sound t.amount_minor u.amount_minor,
  eq_iff t.currency u.currency,
  eq_iff t.counterparty_country u.counterparty_country,
)

-- The comparison finds two transactions alike exactly if they agree in the seven fields of the
-- client: the external reference, the customer, the direction, the amount, the currency, the
-- country of the counterparty and the instant at which they occurred.
pub same_ingestion_payload_iff :
    (t u : Transaction) → (same_ingestion_payload t u ≡ true) ↔ SamePayload t u
same_ingestion_payload_iff t u =
    (same_ingestion_payload_sound t u, same_ingestion_payload_complete t u)
