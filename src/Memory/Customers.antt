-- ===== src/Memory/Customers.antt =====
-- memory/repository.go: customers and their audit events.
use financial_crime_complian.Common.{String, List, Option, none, some, ◌==◌, if◌then◌else◌}
use financial_crime_complian.Common.Dict.{get, put, get_list, push}
use financial_crime_complian.Domain.Errors.{Error}
use financial_crime_complian.Domain.Audit.{AuditEvent}
use financial_crime_complian.Domain.Customer.{Customer, CustomerStatus, ReviewDecision, status_eq}
use financial_crime_complian.Effects.{Exec, ok, err}
use financial_crime_complian.Memory.{Repository}

unfoldable pub get_customer : String → Exec Repository Customer
get_customer id r = elim (get id r.customers) [
  | none ↦ (err Error.customer_not_found, r)
  | some customer ↦ (ok customer, r)
]

unfoldable pub create_customer : Customer → AuditEvent → Exec Repository Unit
create_customer customer event r = (
  ok tt,
  record r {
    customers = put customer.id customer r.customers;
    events = push customer.id event r.events;
  },
)

unfoldable pub list_audit_events : String → Exec Repository (List AuditEvent)
list_audit_events id r = (ok (get_list id r.events), r)

-- The status that a decision gives; `none` is an invalid decision.
unfoldable pub decided : ReviewDecision → Option CustomerStatus
decided ReviewDecision.approve = some CustomerStatus.active
decided ReviewDecision.reject = some CustomerStatus.rejected
decided (ReviewDecision.other _) = none

-- The last part of ReviewCustomer, once the checks have passed.
pub store_review :
    String → CustomerStatus → Customer → String → AuditEvent → Exec Repository Customer
store_review id status customer actor event r =
    let reviewed : Customer = record customer {
      status = status;
      reviewed_by = actor;
      reviewed_at = some event.occurred_at;
    } in
    (
      ok reviewed,
      record r { customers = put id reviewed r.customers; events = push id event r.events },
    )

unfoldable pub review_customer :
    String → ReviewDecision → String → AuditEvent → Exec Repository Customer
unfolding decided store_review
review_customer id decision actor event r = elim (get id r.customers) [
  | none ↦ (err Error.customer_not_found, r)
  | some customer ↦
      if customer.created_by == actor
      then (err Error.maker_cannot_review, r)
      else if status_eq customer.status CustomerStatus.pending_approval
      then (elim (decided decision) [
        | none ↦ (err Error.invalid_review_decision, r)
        | some status ↦ store_review id status customer actor event r
      ])
      else (err Error.review_conflict, r)
]
