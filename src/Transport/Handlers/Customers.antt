-- ===== src/Transport/Handlers/Customers.antt =====
-- internal/transport/httpapi/handler.go: the handlers of customers and of what belongs to them.
use financial_crime_complian.Application.Onboarding.{onboard, review, CustomerRepository}
use financial_crime_complian.Application.Queries as Queries
use financial_crime_complian.Transport.Requests.{
  Decoded, read_error, write_error, Response, write_json, Request, Reply,
}
use financial_crime_complian.Transport.Parameters.{page_request, to_customer_status}
use financial_crime_complian.Application.Queries.{TokenCodec, ReadRepository}
use financial_crime_complian.Application.Env.{Env}
use financial_crime_complian.Domain.Errors.{Error}
use financial_crime_complian.Common.{String, Option, some, none}
use financial_crime_complian.Auth.Tokens.{Principal}
use financial_crime_complian.Transport.Respond.{respond, with_page, with_body, Handler}
use financial_crime_complian.Domain.Customer.{ReviewDecision}

unfoldable pub invalid_filter : String → Response
unfolding write_error
invalid_filter text = write_error 422 "invalid_filter" text

unfoldable pub customer_not_found : Response
unfolding write_error
customer_not_found = write_error 404 "customer_not_found" "Customer was not found"

unfoldable pub onboard_failure : Error → Response
unfolding write_error
onboard_failure Error.invalid_customer =
    write_error 422 "invalid_customer" "Customer data failed validation"
onboard_failure _ = write_error 500 "internal_error" "Customer could not be created"

unfoldable pub review_failure : Error → Response
unfolding write_error customer_not_found
review_failure Error.customer_not_found = customer_not_found
review_failure Error.maker_cannot_review =
    write_error 409 "maker_checker_violation"
      "The customer creator cannot review their own submission"
review_failure Error.review_conflict =
    write_error 409 "review_conflict" "Customer is not pending approval"
review_failure _ = write_error 500 "internal_error" "Customer review could not be completed"

-- A read of a customer that may be missing: getCustomer, listCustomerActivity and writeCDDResult.
unfoldable pub customer_failure : Error → Response
unfolding customer_not_found read_error
customer_failure Error.customer_not_found = customer_not_found
customer_failure _ = read_error

unfoldable pub customers_failure : Error → Response
unfolding invalid_filter read_error
customers_failure Error.invalid_page = invalid_filter "Customer status is invalid"
customers_failure _ = read_error

-- The reason of a review; a request with no body has none.
abbrev pub reason_of : Decoded String → Option String
reason_of (Decoded.value reason) = some reason
reason_of Decoded.end_of_body = some ""
reason_of Decoded.malformed = none

module _ {S : Type 0} (repo : CustomerRepository S) (env : Env) (by : Principal) where
  -- Handler.onboardCustomer
  unfoldable pub onboard_customer : Request → Handler S
  unfolding onboard with_body respond onboard_failure write_json
  onboard_customer q = with_body q.body.onboarding λ cmd.
      respond onboard_failure (λ c. write_json 201 (Reply.customer c))
        (onboard repo env (record cmd { actor = by.subject }))

  -- Handler.reviewCustomer
  unfoldable pub review_customer : ReviewDecision → String → Request → Handler S
  unfolding review with_body respond review_failure write_json
  review_customer decision customer_id q = with_body (reason_of q.body.review) λ reason.
      respond review_failure (λ c. write_json 200 (Reply.customer c))
        (review repo env customer_id decision by.subject reason)

module _ {S : Type 0} (codec : TokenCodec) (repo : ReadRepository S) where
  -- Handler.listCustomers
  unfoldable pub list_customers : Request → Handler S
  unfolding with_page Queries.list_customers respond customers_failure write_json to_customer_status
  list_customers q = with_page (page_request codec q) λ page.
      respond customers_failure (λ p. write_json 200 (Reply.customers p))
        (Queries.list_customers codec repo (to_customer_status q.status) page)

  -- Handler.getCustomer
  unfoldable pub get_customer : String → Handler S
  unfolding Queries.get_customer respond customer_failure write_json
  get_customer id =
      respond customer_failure (λ c. write_json 200 (Reply.customer c))
        (Queries.get_customer repo id)

  -- Handler.listCustomerTransactions
  unfoldable pub list_customer_transactions : String → Request → Handler S
  unfolding with_page Queries.list_transactions respond read_error write_json
  list_customer_transactions id q = with_page (page_request codec q) λ page.
      respond (λ e. read_error) (λ p. write_json 200 (Reply.transactions p))
        (Queries.list_transactions codec repo id page)

  -- Handler.listAuditEvents
  unfoldable pub list_audit_events : String → Request → Handler S
  unfolding with_page Queries.list_audit_events respond read_error write_json
  list_audit_events id q = with_page (page_request codec q) λ page.
      respond (λ e. read_error) (λ p. write_json 200 (Reply.events p))
        (Queries.list_audit_events codec repo id page)

  -- Handler.listCustomerActivity
  unfoldable pub list_customer_activity : String → Request → Handler S
  unfolding with_page Queries.list_customer_activity respond customer_failure write_json
  list_customer_activity id q = with_page (page_request codec q) λ page.
      respond customer_failure (λ p. write_json 200 (Reply.events p))
        (Queries.list_customer_activity codec repo id page)
