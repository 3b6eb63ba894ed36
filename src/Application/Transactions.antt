-- ===== src/Application/Transactions.antt =====
-- internal/application/transactions.go: transactions are ingested and monitored, alerts are closed.
use Prim.Native.String.{len}
use financial_crime_complian.Common.{
  ℕ, ◌+◌, String, List, [], ◌∷◌, none, Bool, true, false, not, ◌||◌, eqb, ltb,
}
use financial_crime_complian.Common.Int.{ℤ, is_above}
use financial_crime_complian.Common.Text.{is_empty, trim_space}
use financial_crime_complian.Domain.Errors.{Error}
use financial_crime_complian.Domain.Audit.{AuditEvent, Time, str, int}
use financial_crime_complian.Domain.Transaction.{
  Transaction, TransactionDirection, direction_text, truncate,
}
use financial_crime_complian.Domain.Monitoring.{Alert, AlertStatus, MonitoringFinding, evaluate}
use financial_crime_complian.Effects.{Exec, refuse_if, raise}
use financial_crime_complian.Application.Env.{Env, upper_trim}

-- The stored transaction, its alerts, and whether the call was a replay.
pub record IngestTransactionResult : Type 0 where
  pub transaction : Transaction
  pub alerts : List Alert
  pub replayed : Bool

-- The interface TransactionRepository.
pub record TransactionRepository (S : Type 0) : Type 0 where
  pub create_transaction :
      Transaction → AuditEvent → List Alert → List AuditEvent → Exec S IngestTransactionResult
  pub list_alerts : AlertStatus → Exec S (List Alert)
  pub close_alert : String → String → String → AuditEvent → Exec S Alert

pub record IngestTransactionCommand : Type 0 where
  pub external_ref : String
  pub customer_id : String
  pub direction : TransactionDirection
  pub amount_minor : ℤ
  pub currency : String
  pub counterparty_country : String
  pub occurred_at : Time
  pub actor : String
  pub idempotency_key : String

abbrev pub is_direction : TransactionDirection → Bool
is_direction (TransactionDirection.other _) = false
is_direction _ = true

-- The checks of Ingest, on the trimmed and upper-cased command.
abbrev pub is_invalid : IngestTransactionCommand → Bool
is_invalid cmd =
    is_empty cmd.customer_id
    || not (is_above cmd.amount_minor 0)
    || not (eqb (len cmd.currency) 3)
    || not (eqb (len cmd.counterparty_country) 2)
    || eqb cmd.occurred_at 0
    || is_empty cmd.actor
    || is_empty cmd.idempotency_key
    || ltb 200 (len cmd.idempotency_key)
    || not (is_direction cmd.direction)

unfoldable pub normalise : Env → IngestTransactionCommand → IngestTransactionCommand
normalise env cmd = record cmd {
  external_ref = trim_space cmd.external_ref;
  customer_id = trim_space cmd.customer_id;
  currency = upper_trim env cmd.currency;
  counterparty_country = upper_trim env cmd.counterparty_country;
  actor = trim_space cmd.actor;
  idempotency_key = trim_space cmd.idempotency_key;
}

unfoldable pub to_transaction : Env → IngestTransactionCommand → Transaction
to_transaction env cmd = record {
  id = env.new_id 0;
  idempotency_key = cmd.idempotency_key;
  external_ref = cmd.external_ref;
  customer_id = cmd.customer_id;
  direction = cmd.direction;
  amount_minor = cmd.amount_minor;
  currency = cmd.currency;
  counterparty_country = cmd.counterparty_country;
  occurred_at = truncate cmd.occurred_at;
  ingested_at = env.now;
  ingested_by = cmd.actor;
}

unfoldable pub ingested_event : Env → Transaction → AuditEvent
ingested_event env t = record {
  id = env.new_id 1;
  aggregate_type = "transaction";
  aggregate_id = t.id;
  event_type = "transaction.ingested";
  actor = t.ingested_by;
  occurred_at = env.now;
  payload =
      ("customer_id", str t.customer_id)
      ∷ ("amount_minor", int t.amount_minor)
      ∷ ("currency", str t.currency)
      ∷ ("direction", str (direction_text t.direction))
      ∷ [];
}

unfoldable pub to_alert : Env → Transaction → String → MonitoringFinding → Alert
to_alert env t id f = record {
  id = id;
  transaction_id = t.id;
  customer_id = t.customer_id;
  rule_code = f.rule_code;
  rule_version = f.rule_version;
  severity = f.severity;
  status = AlertStatus.open_alert;
  reason_code = f.reason_code;
  description = f.description;
  created_at = env.now;
  closed_at = none;
  closed_by = "";
  closure_reason = "";
}

unfoldable pub alert_event : Env → String → Alert → AuditEvent
alert_event env id alert = record {
  id = id;
  aggregate_type = "alert";
  aggregate_id = alert.id;
  event_type = "alert.created";
  actor = "transaction-monitoring-engine";
  occurred_at = env.now;
  payload =
      ("transaction_id", str alert.transaction_id)
      ∷ ("rule_code", str alert.rule_code)
      ∷ ("rule_version", str alert.rule_version)
      ∷ ("reason_code", str alert.reason_code)
      ∷ [];
}

-- The loop over the findings: the n-th makes an alert and an event, with the next two identifiers.
unfoldable pub alerts_of : Env → Transaction → ℕ → List MonitoringFinding → List Alert
unfolding to_alert
alerts_of env t n [] = []
alerts_of env t n (f ∷ fs) = to_alert env t (env.new_id n) f ∷ alerts_of env t (n + 2) fs

unfoldable pub alert_events_of : Env → ℕ → List Alert → List AuditEvent
unfolding alert_event
alert_events_of env n [] = []
alert_events_of env n (a ∷ rest) =
    alert_event env (env.new_id (n + 1)) a ∷ alert_events_of env (n + 2) rest

unfoldable pub close_event : Env → String → String → String → AuditEvent
close_event env alert_id actor reason = record {
  id = env.new_id 0;
  aggregate_type = "alert";
  aggregate_id = alert_id;
  event_type = "alert.closed";
  actor = actor;
  occurred_at = env.now;
  payload = ("reason", str reason) ∷ [];
}

-- status != "" && status != AlertOpen && status != AlertClosed
abbrev pub is_bad_filter : AlertStatus → Bool
is_bad_filter (AlertStatus.other s) = not (is_empty s)
is_bad_filter _ = false

module _ {S : Type 0} (repo : TransactionRepository S) (env : Env) where
  -- What Ingest does with a command that has passed the checks.
  unfoldable pub submit : IngestTransactionCommand → Exec S IngestTransactionResult
  unfolding to_transaction ingested_event alerts_of alert_events_of
  submit cmd =
      let t = to_transaction env cmd in
      let alerts = alerts_of env t 2 (evaluate t) in
      repo.create_transaction t (ingested_event env t) alerts (alert_events_of env 2 alerts)

  -- TransactionService.Ingest
  unfoldable pub ingest : IngestTransactionCommand → Exec S IngestTransactionResult
  unfolding normalise submit raise
  ingest cmd =
      refuse_if (is_invalid (normalise env cmd)) Error.invalid_transaction
        (submit (normalise env cmd))

  -- TransactionService.ListAlerts
  unfoldable pub list_alerts : AlertStatus → Exec S (List Alert)
  unfolding raise
  list_alerts status =
      refuse_if (is_bad_filter status) Error.invalid_alert_review (repo.list_alerts status)

  -- TransactionService.CloseAlert
  unfoldable pub close_alert : String → String → String → Exec S Alert
  unfolding close_event raise
  close_alert alert_id actor reason =
      let id = trim_space alert_id in
      let by = trim_space actor in
      let why = trim_space reason in
      refuse_if (is_empty id || is_empty by || is_empty why) Error.invalid_alert_review
        (repo.close_alert id by why (close_event env id by why))
