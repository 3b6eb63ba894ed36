-- ===== src/Application/Queries.antt =====
-- internal/application/queries.go: page requests, pages, and the read services.
use financial_crime_complian.Common.{
  ℕ, zero, ◌+◌, ◌-◌, String, List, [], ◌∷◌, Option, none, some, Bool, false, ◌||◌, not, length,
  take, ltb, eqb, if◌then◌else◌,
}
use financial_crime_complian.Common.Int.{ℤ, pos, is_below, is_above, to_nat}
use financial_crime_complian.Common.Text.{is_empty}
use financial_crime_complian.Domain.Errors.{Error}
use financial_crime_complian.Domain.Audit.{AuditEvent, Time}
use financial_crime_complian.Domain.Customer.{Customer, CustomerStatus}
use financial_crime_complian.Domain.Transaction.{Transaction}
use financial_crime_complian.Domain.Monitoring.{Alert, AlertStatus}
use financial_crime_complian.Domain.Case.{InvestigationCase, CaseStatus}
use financial_crime_complian.Effects.{Exec, refuse_if, Result, ok, err, pure, raise, ◌>>=◌}
use financial_crime_complian.Application.Transactions.{is_bad_filter}

pub record Cursor : Type 0 where
  pub time : Time
  pub id : String

-- The text of a cursor: base64.RawURLEncoding of its JSON. `decode` gives nothing where one of the
-- two decoders fails.
pub record TokenCodec : Type 0 where
  pub encode : Cursor → String
  pub decode : String → Option Cursor

pub record PageRequest : Type 0 where
  pub limit : ℕ
  pub cursor_time : Time
  pub cursor_id : String

pub record Page {ℓ} (A : Type ℓ) : Type ℓ where
  pub items : List A
  pub next_page_token : String

-- size == 0
abbrev pub or_default_size : ℤ → ℤ
or_default_size (pos zero) = pos 25
or_default_size z = z

module _ (codec : TokenCodec) where
  abbrev pub with_cursor : ℕ → Option Cursor → Result PageRequest
  with_cursor limit none = err Error.invalid_page
  with_cursor limit (some c) =
      if eqb c.time 0 || is_empty c.id
      then err Error.invalid_page
      else ok (record { limit = limit; cursor_time = c.time; cursor_id = c.id })

  -- NewPageRequest
  unfoldable pub new_page_request : ℤ → String → Result PageRequest
  new_page_request size token =
      let n = or_default_size size in
      if is_below n 1 || is_above n 100
      then err Error.invalid_page
      else if is_empty token
      then ok (record { limit = to_nat n + 1; cursor_time = 0; cursor_id = "" })
      else with_cursor (to_nat n + 1) (codec.decode token)

  module _ {ℓ} {A : Type ℓ} (cursor : A → Cursor) where
    -- The token of the last item; a page of no items has none.
    unfoldable pub token_of_last : List A → String
    token_of_last [] = ""
    token_of_last (x ∷ []) = codec.encode (cursor x)
    token_of_last (x ∷ y ∷ xs) = token_of_last (y ∷ xs)

    -- page
    unfoldable pub page : List A → ℕ → Page A
    unfolding token_of_last
    page items requested_limit =
        if ltb (length items) requested_limit
        then record { items = items; next_page_token = "" }
        else (let kept = take (requested_limit - 1) items in
            record { items = kept; next_page_token = token_of_last kept })

-- The interface ReadRepository.
pub record ReadRepository (S : Type 0) : Type 0 where
  pub get_customer : String → Exec S Customer
  pub list_customers : CustomerStatus → PageRequest → Exec S (List Customer)
  pub list_customer_transactions : String → PageRequest → Exec S (List Transaction)
  pub list_audit_events_page : String → PageRequest → Exec S (List AuditEvent)
  pub list_customer_activity_page : String → PageRequest → Exec S (List AuditEvent)
  pub list_alerts_page : AlertStatus → PageRequest → Exec S (List Alert)
  pub list_cases_page : CaseStatus → PageRequest → Exec S (List InvestigationCase)

abbrev pub is_bad_customer_filter : CustomerStatus → Bool
is_bad_customer_filter (CustomerStatus.other s) = not (is_empty s)
is_bad_customer_filter _ = false

abbrev pub is_bad_case_filter : CaseStatus → Bool
is_bad_case_filter (CaseStatus.other s) = not (is_empty s)
is_bad_case_filter _ = false

abbrev pub customer_cursor : Customer → Cursor
customer_cursor v = record { time = v.created_at; id = v.id }

abbrev pub transaction_cursor : Transaction → Cursor
transaction_cursor v = record { time = v.occurred_at; id = v.id }

abbrev pub event_cursor : AuditEvent → Cursor
event_cursor v = record { time = v.occurred_at; id = v.id }

abbrev pub alert_cursor : Alert → Cursor
alert_cursor v = record { time = v.created_at; id = v.id }

abbrev pub case_cursor : InvestigationCase → Cursor
case_cursor v = record { time = v.updated_at; id = v.id }

module _ {S : Type 0} (repo : ReadRepository S) where
  -- QueryService.GetCustomer
  unfoldable pub get_customer : String → Exec S Customer
  unfolding raise
  get_customer id = refuse_if (is_empty id) Error.customer_not_found (repo.get_customer id)

module _ {S : Type 0} (codec : TokenCodec) (repo : ReadRepository S) where
  -- return page(items, request.Limit, cursor), err
  paged : {A : Type 0} → (A → Cursor) → Exec S (List A) → PageRequest → Exec S (Page A)
  unfolding page ◌>>=◌
  paged cursor list request = do items ← list; pure (page codec cursor items request.limit)

  -- QueryService.ListCustomers
  unfoldable pub list_customers : CustomerStatus → PageRequest → Exec S (Page Customer)
  unfolding paged raise
  list_customers status request =
      refuse_if (is_bad_customer_filter status) Error.invalid_page
        (paged customer_cursor (repo.list_customers status request) request)

  -- QueryService.ListTransactions
  unfoldable pub list_transactions : String → PageRequest → Exec S (Page Transaction)
  unfolding paged
  list_transactions customer_id request =
      paged transaction_cursor (repo.list_customer_transactions customer_id request) request

  -- QueryService.ListAuditEvents
  unfoldable pub list_audit_events : String → PageRequest → Exec S (Page AuditEvent)
  unfolding paged
  list_audit_events aggregate_id request =
      paged event_cursor (repo.list_audit_events_page aggregate_id request) request

  -- QueryService.ListCustomerActivity
  unfoldable pub list_customer_activity : String → PageRequest → Exec S (Page AuditEvent)
  unfolding paged raise
  list_customer_activity customer_id request =
      refuse_if (is_empty customer_id) Error.customer_not_found
        (paged event_cursor (repo.list_customer_activity_page customer_id request) request)

  -- QueryService.ListAlerts
  unfoldable pub list_alerts : AlertStatus → PageRequest → Exec S (Page Alert)
  unfolding paged raise
  list_alerts status request =
      refuse_if (is_bad_filter status) Error.invalid_page
        (paged alert_cursor (repo.list_alerts_page status request) request)

  -- QueryService.ListCases
  unfoldable pub list_cases : CaseStatus → PageRequest → Exec S (Page InvestigationCase)
  unfolding paged raise
  list_cases status request =
      refuse_if (is_bad_case_filter status) Error.invalid_page
        (paged case_cursor (repo.list_cases_page status request) request)
