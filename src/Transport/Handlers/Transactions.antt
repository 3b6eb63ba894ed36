-- ===== src/Transport/Handlers/Transactions.antt =====
-- internal/transport/httpapi/handler.go: the handlers of transactions and alerts.
use financial_crime_complian.Application.Transactions.{
  ingest, TransactionRepository, IngestTransactionResult,
}
use financial_crime_complian.Application.Transactions as Transactions
use financial_crime_complian.Application.Queries as Queries
use financial_crime_complian.Transport.Requests.{
  Decoded, write_json, write_error, Response, Request, Reply,
}
use financial_crime_complian.Transport.Parameters.{page_request, to_alert_status}
use financial_crime_complian.Application.Queries.{TokenCodec, ReadRepository}
use financial_crime_complian.Application.Env.{Env}
use financial_crime_complian.Domain.Errors.{Error}
use financial_crime_complian.Common.{String, Option, if◌then◌else◌, some, true, none}
use financial_crime_complian.Auth.Tokens.{Principal}
use financial_crime_complian.Transport.Respond.{with_page, with_body, respond, Handler}

unfoldable pub ingest_failure : Error → Response
unfolding write_error
ingest_failure Error.invalid_transaction =
    write_error 422 "invalid_transaction" "Transaction data failed validation"
ingest_failure Error.customer_not_found =
    write_error 404 "customer_not_found" "Customer was not found"
ingest_failure Error.customer_not_active =
    write_error 409 "customer_not_active" "Transactions can only be ingested for active customers"
ingest_failure Error.idempotency_conflict =
    write_error 409 "idempotency_conflict"
      "Idempotency-Key was already used with a different request"
ingest_failure _ = write_error 500 "internal_error" "Transaction could not be ingested"

unfoldable pub alert_failure : Error → Response
unfolding write_error
alert_failure Error.invalid_alert_review =
    write_error 422 "invalid_alert_review" "A closure reason is required"
alert_failure Error.alert_not_found = write_error 404 "alert_not_found" "Alert was not found"
alert_failure Error.alert_conflict = write_error 409 "alert_conflict" "Alert is not open"
alert_failure _ = write_error 500 "internal_error" "Alert could not be closed"

unfoldable pub alerts_failure : Error → Response
unfolding write_error
alerts_failure Error.invalid_page =
    write_error 422 "invalid_alert_filter" "Alert status filter is not valid"
alerts_failure _ = write_error 500 "internal_error" "Alerts could not be listed"

-- A replay is answered with 200 and the header Idempotency-Replayed, a new transaction with 201.
unfoldable pub ingested_response : IngestTransactionResult → Response
unfolding write_json
ingested_response result =
    if result.replayed
    then record { status = 200; replayed = true; reply = Reply.ingested result }
    else write_json 201 (Reply.ingested result)

-- closeAlert takes no request without a body.
abbrev pub value_of : Decoded String → Option String
value_of (Decoded.value reason) = some reason
value_of _ = none

module _ {S : Type 0} (repo : TransactionRepository S) (env : Env) (by : Principal) where
  -- Handler.ingestTransaction
  unfoldable pub ingest_transaction : Request → Handler S
  unfolding ingest with_body respond ingest_failure ingested_response
  ingest_transaction q = with_body q.body.transaction λ cmd.
      respond ingest_failure ingested_response
        (ingest repo env (record cmd { actor = by.subject; idempotency_key = q.idempotency_key }))

  -- Handler.closeAlert
  unfoldable pub close_alert : String → Request → Handler S
  unfolding Transactions.close_alert with_body respond alert_failure write_json
  close_alert alert_id q = with_body (value_of q.body.review) λ reason.
      respond alert_failure (λ a. write_json 200 (Reply.alert a))
        (Transactions.close_alert repo env alert_id by.subject reason)

module _ {S : Type 0} (codec : TokenCodec) (repo : ReadRepository S) where
  -- Handler.listAlerts
  unfoldable pub list_alerts : Request → Handler S
  unfolding with_page Queries.list_alerts respond alerts_failure write_json to_alert_status
  list_alerts q = with_page (page_request codec q) λ page.
      respond alerts_failure (λ p. write_json 200 (Reply.alerts p))
        (Queries.list_alerts codec repo (to_alert_status q.status) page)
