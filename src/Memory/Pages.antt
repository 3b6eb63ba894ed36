-- ===== src/Memory/Pages.antt =====
-- memory/repository.go: the lists that are read page by page, newest first.
use financial_crime_complian.Common.{
  String, List, [], ◌∷◌, ◌++◌, none, some, Bool, false, ◌&&◌, ◌||◌, ◌==◌, ltb, eqb, take, select,
  map, any, if◌then◌else◌,
}
use financial_crime_complian.Common.Text.{is_empty}
use financial_crime_complian.Common.Dict.{Dict, get, get_list, values}
use financial_crime_complian.Common.Sort.{sort}
use financial_crime_complian.Domain.Errors.{Error}
use financial_crime_complian.Domain.Audit.{AuditEvent}
use financial_crime_complian.Domain.Customer as Customers
use financial_crime_complian.Domain.Customer.{Customer, CustomerStatus}
use financial_crime_complian.Domain.Transaction.{Transaction}
use financial_crime_complian.Domain.Monitoring.{Alert, AlertStatus}
use financial_crime_complian.Domain.Case as Cases
use financial_crime_complian.Domain.Case.{InvestigationCase, CaseStatus}
use financial_crime_complian.Effects.{Exec, ok, err}
use financial_crime_complian.Application.Queries.{
  Cursor, PageRequest, customer_cursor, transaction_cursor, event_cursor, alert_cursor, case_cursor,
}
use financial_crime_complian.Memory.{Repository}
use financial_crime_complian.Memory.Notifications.{text_lt}
use financial_crime_complian.Memory.Transactions.{has_status}

-- before(timestamp, id, page)
abbrev pub before : PageRequest → Cursor → Bool
before page c =
    eqb page.cursor_time 0
    || ltb c.time page.cursor_time
    || (eqb c.time page.cursor_time && text_lt c.id page.cursor_id)

-- newer(a, aID, b, bID)
abbrev pub newer : Cursor → Cursor → Bool
newer a b = ltb b.time a.time || (eqb a.time b.time && text_lt b.id a.id)

module _ {ℓ} {A : Type ℓ} (cursor : A → Cursor) where
  -- What every method does with the items that it visits: those past the cursor are kept, sorted
  -- newest first, and cut to the limit.
  unfoldable pub list_page : PageRequest → List A → List A
  unfolding sort
  list_page page items =
      take page.limit
        (sort (λ a b. newer (cursor a) (cursor b)) (select (λ v. before page (cursor v)) items))

-- status == "" || v.Status == status
abbrev pub is_any_status : CustomerStatus → Bool
is_any_status (CustomerStatus.other s) = is_empty s
is_any_status _ = false

abbrev pub is_any_case_status : CaseStatus → Bool
is_any_case_status (CaseStatus.other s) = is_empty s
is_any_case_status _ = false

unfoldable pub list_customers : CustomerStatus → PageRequest → Exec Repository (List Customer)
unfolding list_page
list_customers status page r = (
  ok (
      list_page customer_cursor page (
        select (λ v. is_any_status status || Customers.status_eq v.status status)
          (values r.customers))),
  r,
)

unfoldable pub list_customer_transactions :
    String → PageRequest → Exec Repository (List Transaction)
unfolding list_page
list_customer_transactions customer_id page r = (
  ok (
      list_page transaction_cursor page
        (select (λ v. v.customer_id == customer_id) (values r.transactions))),
  r,
)

unfoldable pub list_audit_events_page : String → PageRequest → Exec Repository (List AuditEvent)
unfolding list_page
list_audit_events_page aggregate_id page r =
    (ok (list_page event_cursor page (get_list aggregate_id r.events)), r)

-- related[id] = true, for a map that has every key once.
unfoldable pub add_related : String → List String → List String
add_related id related = if any (λ k. k == id) related then related else id ∷ related

unfoldable pub relate_all : List String → List String → List String
unfolding add_related
relate_all [] related = related
relate_all (id ∷ ids) related = relate_all ids (add_related id related)

-- The customer, and the transactions, alerts and cases of the customer.
unfoldable pub related_to : String → Repository → List String
unfolding relate_all
related_to customer_id r =
    relate_all
      (map (λ t. t.id) (select (λ t. t.customer_id == customer_id) (values r.transactions))
        ++ map (λ a. a.id) (select (λ a. a.customer_id == customer_id) (values r.alerts))
        ++ map (λ c. c.id) (select (λ c. c.customer_id == customer_id) (values r.cases)))
      (customer_id ∷ [])

unfoldable pub events_of : List String → Dict (List AuditEvent) → List AuditEvent
events_of [] events = []
events_of (id ∷ ids) events = get_list id events ++ events_of ids events

unfoldable pub list_customer_activity_page :
    String → PageRequest → Exec Repository (List AuditEvent)
unfolding list_page related_to events_of
list_customer_activity_page customer_id page r = elim (get customer_id r.customers) [
  | none ↦ (err Error.customer_not_found, r)
  | some _ ↦ (ok (list_page event_cursor page (events_of (related_to customer_id r) r.events)), r)
]

unfoldable pub list_alerts_page : AlertStatus → PageRequest → Exec Repository (List Alert)
unfolding list_page
list_alerts_page status page r =
    (ok (list_page alert_cursor page (select (has_status status) (values r.alerts))), r)

unfoldable pub list_cases_page : CaseStatus → PageRequest → Exec Repository (List InvestigationCase)
unfolding list_page
list_cases_page status page r = (
  ok (
      list_page case_cursor page (
        select (λ v. is_any_case_status status || Cases.status_eq v.status status)
          (values r.cases))),
  r,
)
