-- ===== src/Transport/Reads.antt =====
-- internal/transport/httpapi/handler.go: the handlers that only read.
use financial_crime_complian.Application.Queries as Queries
use financial_crime_complian.Transport.Handlers.Customers
use financial_crime_complian.Transport.Handlers.Transactions
use financial_crime_complian.Transport.Handlers.Cases
use financial_crime_complian.Transport.Handlers.DueDiligence
use financial_crime_complian.Transport.Handlers.Screening
use financial_crime_complian.Memory.Customers as Memory
use financial_crime_complian.Memory.Cases as Investigations
use financial_crime_complian.Memory.DueDiligence as Profiles
use financial_crime_complian.Memory.Screening as Matches
use financial_crime_complian.Memory.Schedules as Schedules
use financial_crime_complian.Memory.Notifications as Notifications
use financial_crime_complian.Memory.Pages as Pages
use financial_crime_complian.Effects.{Exec, refuse_if, Result, ok, err}
use financial_crime_complian.Application.Queries.{TokenCodec, PageRequest}
use financial_crime_complian.Transport.Respond.{with_page, respond}
use financial_crime_complian.Memory.{Repository}
use financial_crime_complian.Auth.Tokens.{Principal}
use financial_crime_complian.Common.{refl, String, arith, ◌≡◌}
use financial_crime_complian.Memory.Ports.{due_diligence_port, case_port, read_port, screening_port}
use financial_crime_complian.Transport.Requests.{Request, write_json, Reply, Response, read_error}
use financial_crime_complian.Transport.Parameters.{
  page_request, to_customer_status, to_case_status, to_alert_status,
}
use financial_crime_complian.Domain.Errors.{Error}
use financial_crime_complian.Memory.Pages.{
  list_cases_page, list_alerts_page, list_customer_activity_page,
}
use financial_crime_complian.Domain.Customer.{CustomerStatus}
use financial_crime_complian.Domain.Case.{CaseStatus}
use financial_crime_complian.Domain.Monitoring.{AlertStatus}

module _ {S : Type 0} where
  -- A call that leaves the state as it is.
  abbrev pub Reads : {A : Type 0} → Exec S A → S → Type 0
  Reads m s = (m s).1 ≡ s

  -- A handler of a list reads, if the service reads for every page.
  query-Reads :
      {A : Type 0} (p : Result PageRequest) (f : Error → Response) (g : A → Response)
      (m : PageRequest → Exec S A) (s : S)
      → ((page : PageRequest) → Reads (m page) s)
      → (with_page p (λ page. respond f g (m page)) s).1 ≡ s
  unfolding with_page respond
  query-Reads (err e) f g m s h = refl
  query-Reads (ok page) f g m s h = h page

module _ (codec : TokenCodec) (q : Request) (r : Repository) where
  list_customers_page-Reads :
      (key : CustomerStatus) (page : PageRequest)
      → Reads (Queries.list_customers codec read_port key page) r
  unfolding Queries.list_customers Pages.list_customers refuse_if
  list_customers_page-Reads key page = ground arith

  pub list_customers-Reads : (Customers.list_customers codec read_port q r).1 ≡ r
  unfolding Customers.list_customers
  list_customers-Reads =
      query-Reads (page_request codec q) Customers.customers_failure
        (λ p. write_json 200 (Reply.customers p))
        (Queries.list_customers codec read_port (to_customer_status q.status)) r
        (list_customers_page-Reads (to_customer_status q.status))

  list_customer_transactions_page-Reads :
      (key : String) (page : PageRequest)
      → Reads (Queries.list_transactions codec read_port key page) r
  unfolding Queries.list_transactions Pages.list_customer_transactions
  list_customer_transactions_page-Reads key page = ground arith

  pub list_customer_transactions-Reads :
      (id : String) → (Customers.list_customer_transactions codec read_port id q r).1 ≡ r
  unfolding Customers.list_customer_transactions
  list_customer_transactions-Reads id =
      query-Reads (page_request codec q) (λ e. read_error)
        (λ p. write_json 200 (Reply.transactions p)) (Queries.list_transactions codec read_port id)
        r (list_customer_transactions_page-Reads id)

  list_audit_events_page-Reads :
      (key : String) (page : PageRequest)
      → Reads (Queries.list_audit_events codec read_port key page) r
  unfolding Queries.list_audit_events Pages.list_audit_events_page
  list_audit_events_page-Reads key page = ground arith

  pub list_audit_events-Reads :
      (id : String) → (Customers.list_audit_events codec read_port id q r).1 ≡ r
  unfolding Customers.list_audit_events
  list_audit_events-Reads id =
      query-Reads (page_request codec q) (λ e. read_error) (λ p. write_json 200 (Reply.events p))
        (Queries.list_audit_events codec read_port id) r (list_audit_events_page-Reads id)

  list_customer_activity_page-Reads :
      (key : String) (page : PageRequest)
      → Reads (Queries.list_customer_activity codec read_port key page) r
  unfolding Queries.list_customer_activity Pages.list_customer_activity_page refuse_if
  list_customer_activity_page-Reads key page = ground arith

  pub list_customer_activity-Reads :
      (id : String) → (Customers.list_customer_activity codec read_port id q r).1 ≡ r
  unfolding Customers.list_customer_activity
  list_customer_activity-Reads id =
      query-Reads (page_request codec q) Customers.customer_failure
        (λ p. write_json 200 (Reply.events p)) (Queries.list_customer_activity codec read_port id) r
        (list_customer_activity_page-Reads id)

  list_alerts_page-Reads :
      (key : AlertStatus) (page : PageRequest)
      → Reads (Queries.list_alerts codec read_port key page) r
  unfolding Queries.list_alerts Pages.list_alerts_page refuse_if
  list_alerts_page-Reads key page = ground arith

  pub list_alerts-Reads : (Transactions.list_alerts codec read_port q r).1 ≡ r
  unfolding Transactions.list_alerts
  list_alerts-Reads =
      query-Reads (page_request codec q) Transactions.alerts_failure
        (λ p. write_json 200 (Reply.alerts p))
        (Queries.list_alerts codec read_port (to_alert_status q.status)) r
        (list_alerts_page-Reads (to_alert_status q.status))

  list_cases_page-Reads :
      (key : CaseStatus) (page : PageRequest)
      → Reads (Queries.list_cases codec read_port key page) r
  unfolding Queries.list_cases Pages.list_cases_page refuse_if
  list_cases_page-Reads key page = ground arith

  pub list_cases-Reads : (Cases.list_cases codec read_port q r).1 ≡ r
  unfolding Cases.list_cases
  list_cases-Reads =
      query-Reads (page_request codec q) Cases.cases_failure (λ p. write_json 200 (Reply.cases p))
        (Queries.list_cases codec read_port (to_case_status q.status)) r
        (list_cases_page-Reads (to_case_status q.status))

module _ (id : String) (r : Repository) where
  pub get_customer-Reads :
      (codec : TokenCodec) → (Customers.get_customer codec read_port id r).1 ≡ r
  unfolding Customers.get_customer Memory.get_customer refuse_if
  get_customer-Reads codec = ground arith

  pub get_case-Reads : (Cases.get_case case_port id r).1 ≡ r
  unfolding Cases.get_case Investigations.get_case Investigations.list_case_comments
      Memory.list_audit_events
  get_case-Reads = ground arith

  pub get_due_diligence-Reads : (DueDiligence.get_due_diligence due_diligence_port id r).1 ≡ r
  unfolding DueDiligence.get_due_diligence Profiles.get_due_diligence
  get_due_diligence-Reads = ground arith

  pub list_screening_matches-Reads : (Screening.list_screening_matches screening_port id r).1 ≡ r
  unfolding Screening.list_screening_matches Matches.list_screening_matches
  list_screening_matches-Reads = refl

  pub get_screening_schedule-Reads : (Screening.get_screening_schedule screening_port id r).1 ≡ r
  unfolding Screening.get_screening_schedule Schedules.get_screening_schedule
  get_screening_schedule-Reads = ground arith

pub list_notifications-Reads :
    (r : Repository) → (Screening.list_notifications screening_port r).1 ≡ r
unfolding Screening.list_notifications Notifications.list_notifications
list_notifications-Reads r = refl

pub get_notification_preference-Reads :
    (by : Principal) (r : Repository)
    → (Screening.get_notification_preference screening_port by r).1 ≡ r
unfolding Screening.get_notification_preference Notifications.get_notification_preference
get_notification_preference-Reads by r = ground arith
