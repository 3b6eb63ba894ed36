-- ===== src/Transport/Requests.antt =====
-- internal/transport/httpapi/handler.go: what a handler reads of a request, and what it answers.
use financial_crime_complian.Common.Int.{ℤ}
use Prim.Native.String.{String}
use financial_crime_complian.Domain.Screening.{
  ScreeningMatchStatus, ScreeningResult, ScreeningMatch, ScreeningSchedule,
}
use financial_crime_complian.Application.Queries.{Page}
use Prim.Native.Nat.{ℕ}
use financial_crime_complian.Domain.Case.{CasePriority, InvestigationCase, CaseDetails, CaseComment}
use financial_crime_complian.Domain.Customer.{Customer}
use financial_crime_complian.Domain.Monitoring.{Alert}
use financial_crime_complian.Domain.Transaction.{Transaction}
use financial_crime_complian.Domain.Audit.{AuditEvent}
use financial_crime_complian.Application.Transactions.{
  IngestTransactionResult, IngestTransactionCommand,
}
use financial_crime_complian.Domain.DueDiligence.{
  DueDiligenceDetails, CddProfile, BeneficialOwner, KycDocument, DocumentStatus,
}
use financial_crime_complian.Common.{Option, Bool, List, false}
use financial_crime_complian.Application.Onboarding.{OnboardCustomerCommand}
use financial_crime_complian.Domain.Notification.{Notification, NotificationPreference}

pub data Method : Type 0 where
  get head post put : Method
  other : String → Method

-- What Decode makes of a body for a reviewRequest.
pub data Decoded {ℓ} (A : Type ℓ) : Type ℓ where
  value : A → Decoded A
  end_of_body malformed : Decoded A

pub record CaseRequest : Type 0 where
  pub alert_id : String
  pub title : String
  pub priority : CasePriority

pub record CaseTextRequest : Type 0 where
  pub assignee : String
  pub body : String
  pub resolution : String

pub record ScreeningScheduleRequest : Type 0 where
  pub enabled : Bool
  pub interval_hours : ℤ

pub record ScreeningDispositionRequest : Type 0 where
  pub status : ScreeningMatchStatus
  pub reason : String

pub record NotificationPreferenceRequest : Type 0 where
  pub email_address : String
  pub email_enabled : Bool

-- The body, decoded into each type that a handler may ask for; a decoder that fails gives nothing.
pub record Body : Type 0 where
  pub onboarding : Option OnboardCustomerCommand
  pub transaction : Option IngestTransactionCommand
  pub review : Decoded String
  pub profile : Option CddProfile
  pub owner : Option BeneficialOwner
  pub document : Option KycDocument
  pub document_review : Option DocumentStatus
  pub investigation : Option CaseRequest
  pub case_text : Option CaseTextRequest
  pub schedule : Option ScreeningScheduleRequest
  pub disposition : Option ScreeningDispositionRequest
  pub preference : Option NotificationPreferenceRequest

-- `segments` is the cleaned path, unescaped and split at its slashes; an absent header or query
-- parameter is the empty text.
pub record Request : Type 0 where
  pub method : Method
  pub segments : List String
  pub authorization : String
  pub idempotency_key : String
  pub page_size : String
  pub page_token : String
  pub status : String
  pub body : Body

-- The value that writeJSON encodes.
pub data Reply : Type 0 where
  failure : String → String → Reply
  text_status : String → Reply
  plain : String → Reply
  customer : Customer → Reply
  customers : Page Customer → Reply
  transactions : Page Transaction → Reply
  events : Page AuditEvent → Reply
  ingested : IngestTransactionResult → Reply
  alert : Alert → Reply
  alerts : Page Alert → Reply
  investigation : InvestigationCase → Reply
  cases : Page InvestigationCase → Reply
  case_details : CaseDetails → Reply
  comment : CaseComment → Reply
  due_diligence : DueDiligenceDetails → Reply
  profile : CddProfile → Reply
  owner : BeneficialOwner → Reply
  document : KycDocument → Reply
  screening : ScreeningResult → Reply
  matches : List ScreeningMatch → Reply
  match : ScreeningMatch → Reply
  schedule : ScreeningSchedule → Reply
  notifications : List Notification → Reply
  notification : Notification → Reply
  preference : NotificationPreference → Reply

-- `replayed` is the header Idempotency-Replayed.
pub record Response : Type 0 where
  pub status : ℕ
  pub replayed : Bool
  pub reply : Reply

-- writeJSON
unfoldable pub write_json : ℕ → Reply → Response
write_json status reply = record { status = status; replayed = false; reply = reply }

-- writeError
unfoldable pub write_error : ℕ → String → String → Response
unfolding write_json
write_error status kind text = write_json status (Reply.failure kind text)

unfoldable pub invalid_json : Response
unfolding write_error
invalid_json = write_error 400 "invalid_json" "Request body is not valid"

unfoldable pub unauthenticated : Response
unfolding write_error
unauthenticated = write_error 401 "unauthenticated" "A valid bearer token is required"

-- readError; the log line is left out.
unfoldable pub read_error : Response
unfolding write_error
read_error = write_error 500 "internal_error" "Data could not be loaded"
