-- ===== src/Domain/Errors.antt =====
-- The errors of internal/domain and internal/application, each with its text.
use financial_crime_complian.Common.{String, ℕ}
use financial_crime_complian.Common.Int.{pos}
use financial_crime_complian.Common.Text.{format_int}
use Prim.Native.String.{◌++◌}

pub data Error : Type 0 where
  customer_not_found review_conflict maker_cannot_review : Error
  transaction_not_found customer_not_active idempotency_conflict : Error
  alert_not_found alert_conflict : Error
  case_not_found case_conflict alert_has_case : Error
  screening_schedule_not_found notification_not_found : Error
  invalid_customer invalid_transaction invalid_alert_review invalid_case : Error
  invalid_due_diligence invalid_screening invalid_notification_preference invalid_page : Error
  invalid_review_decision alert_event_mismatch : Error
  screening_jobs_failed notification_deliveries_failed : ℕ → Error
  -- an error that a collaborator outside of the repository returned, with its text
  external : String → Error

-- err.Error()
unfoldable pub error_text : Error → String
error_text Error.customer_not_found = "customer not found"
error_text Error.review_conflict = "customer is not pending approval"
error_text Error.maker_cannot_review = "maker cannot review own customer"
error_text Error.transaction_not_found = "transaction not found"
error_text Error.customer_not_active = "customer is not active"
error_text Error.idempotency_conflict =
    "idempotency key was already used for a different transaction"
error_text Error.alert_not_found = "alert not found"
error_text Error.alert_conflict = "alert is not open"
error_text Error.case_not_found = "case not found"
error_text Error.case_conflict = "case is already resolved"
error_text Error.alert_has_case = "alert already has a case"
error_text Error.screening_schedule_not_found = "screening schedule not found"
error_text Error.notification_not_found = "notification not found"
error_text Error.invalid_customer = "invalid customer"
error_text Error.invalid_transaction = "invalid transaction"
error_text Error.invalid_alert_review = "invalid alert review"
error_text Error.invalid_case = "invalid case data"
error_text Error.invalid_due_diligence = "invalid due diligence data"
error_text Error.invalid_screening = "invalid screening request"
error_text Error.invalid_notification_preference = "invalid notification preference"
error_text Error.invalid_page = "invalid page parameters"
error_text Error.invalid_review_decision = "invalid review decision"
error_text Error.alert_event_mismatch = "each alert must have one audit event"
error_text (Error.screening_jobs_failed n) = format_int (pos n) ++ " ongoing screening jobs failed"
error_text (Error.notification_deliveries_failed n) =
    format_int (pos n) ++ " notification deliveries failed"
error_text (Error.external s) = s
