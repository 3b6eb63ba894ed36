-- ===== src/Memory/Transactions.antt =====
-- memory/repository.go: transactions with idempotency keys, and alerts.
use financial_crime_complian.Common.{
  String, List, [], ◌∷◌, Option, none, some, Bool, true, false, ◌==◌, eqb, length, select,
  if◌then◌else◌, ◌≡◌, ◌⊎◌, arith,
}
use financial_crime_complian.Common.Int.{pos}
use financial_crime_complian.Common.Text.{is_empty}
use financial_crime_complian.Common.Dict.{get, put, push, values}
use financial_crime_complian.Domain.Errors.{Error}
use financial_crime_complian.Domain.Audit.{AuditEvent}
use financial_crime_complian.Domain.Customer as Customers
use financial_crime_complian.Domain.Customer.{CustomerStatus}
use financial_crime_complian.Domain.Transaction.{
  Transaction, TransactionDirection, same_ingestion_payload,
}
use financial_crime_complian.Domain.Monitoring.{Alert, AlertStatus, status_eq, is_open}
use financial_crime_complian.Effects.{Exec, ok, err}
use financial_crime_complian.Application.Transactions.{IngestTransactionResult}
use financial_crime_complian.Memory.{Repository}

-- The zero value of a transaction, which a missing key gives.
abbrev pub zero_transaction : Transaction
zero_transaction = record {
  id = "";
  idempotency_key = "";
  external_ref = "";
  customer_id = "";
  direction = TransactionDirection.other "";
  amount_minor = pos 0;
  currency = "";
  counterparty_country = "";
  occurred_at = 0;
  ingested_at = 0;
  ingested_by = "";
}

abbrev pub or_zero : Option Transaction → Transaction
or_zero none = zero_transaction
or_zero (some t) = t

-- The loop that stores each alert with its event; the two lists are of one length.
unfoldable pub store_alerts : List Alert → List AuditEvent → Repository → Repository
store_alerts [] events r = r
store_alerts (alert ∷ alerts) [] r = r
store_alerts (alert ∷ alerts) (event ∷ events) r =
    store_alerts alerts events
      (record r { alerts = put alert.id alert r.alerts; events = push alert.id event r.events })

-- A key that is known: the stored transaction, if the payload is the same.
unfoldable pub replay : String → Transaction → Exec Repository IngestTransactionResult
replay stored_id transaction r =
    let stored = or_zero (get stored_id r.transactions) in
    if same_ingestion_payload stored transaction
    then (
      ok (record {
        transaction = stored;
        alerts = select (λ alert. alert.transaction_id == stored.id) (values r.alerts);
        replayed = true;
      }),
      r,
    )
    else (err Error.idempotency_conflict, r)

-- A new key.
unfoldable pub store_transaction :
    Transaction
    → AuditEvent
    → List Alert
    → List AuditEvent
    → Exec Repository IngestTransactionResult
unfolding store_alerts
store_transaction transaction event alerts alert_events r = (
  ok (record { transaction = transaction; alerts = alerts; replayed = false }),
  store_alerts alerts alert_events (record r {
    transactions = put transaction.id transaction r.transactions;
    idempotency = put transaction.idempotency_key transaction.id r.idempotency;
    events = push transaction.id event r.events;
  }),
)

unfoldable pub create_transaction :
    Transaction
    → AuditEvent
    → List Alert
    → List AuditEvent
    → Exec Repository IngestTransactionResult
unfolding replay store_transaction
create_transaction transaction event alerts alert_events r =
    if eqb (length alerts) (length alert_events)
    then (elim (get transaction.idempotency_key r.idempotency) [
      | some stored_id ↦ replay stored_id transaction r
      | none ↦ (elim (get transaction.customer_id r.customers) [
        | none ↦ (err Error.customer_not_found, r)
        | some customer ↦
            if Customers.status_eq customer.status CustomerStatus.active
            then store_transaction transaction event alerts alert_events r
            else (err Error.customer_not_active, r)
      ])
    ])
    else (err Error.alert_event_mismatch, r)

-- status == "" || v.Status == status
abbrev pub has_status : AlertStatus → Alert → Bool
has_status (AlertStatus.other s) alert =
    if is_empty s then true else status_eq alert.status (AlertStatus.other s)
has_status AlertStatus.open_alert alert = status_eq alert.status AlertStatus.open_alert
has_status AlertStatus.closed alert = status_eq alert.status AlertStatus.closed

unfoldable pub list_alerts : AlertStatus → Exec Repository (List Alert)
list_alerts status r = (ok (select (has_status status) (values r.alerts)), r)

abbrev pub close : Alert → String → String → AuditEvent → Alert
close alert actor reason event = record alert {
  status = AlertStatus.closed;
  closed_at = some event.occurred_at;
  closed_by = actor;
  closure_reason = reason;
}

unfoldable pub close_alert : String → String → String → AuditEvent → Exec Repository Alert
close_alert alert_id actor reason event r = elim (get alert_id r.alerts) [
  | none ↦ (err Error.alert_not_found, r)
  | some alert ↦
      if is_open alert.status
      then (
        ok (close alert actor reason event),
        record r {
          alerts = put alert_id (close alert actor reason event) r.alerts;
          events = push alert_id event r.events;
        },
      )
      else (err Error.alert_conflict, r)
]

-- The state after CreateTransaction is the one before it, or all of its writes are made.
pub create_transaction_states :
    (t : Transaction) (v : AuditEvent) (alerts : List Alert) (vs : List AuditEvent) (r : Repository)
    → ((create_transaction t v alerts vs r).1 ≡ r)
      ⊎ ((create_transaction t v alerts vs r).1 ≡ (store_transaction t v alerts vs r).1)
unfolding create_transaction
create_transaction_states t v alerts vs r = ground arith
