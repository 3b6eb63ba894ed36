-- ===== src/Transport/Api.antt =====
-- internal/transport/httpapi/handler.go: NewHandler as one function from a request to its answer.
use financial_crime_complian.Transport.Handlers.Customers
use financial_crime_complian.Transport.Handlers.Transactions
use financial_crime_complian.Transport.Handlers.Cases
use financial_crime_complian.Transport.Handlers.DueDiligence
use financial_crime_complian.Transport.Handlers.Screening
use financial_crime_complian.Transport.Requests.{
  write_error, write_json, unauthenticated, Response, Reply, Request,
}
use financial_crime_complian.Transport.Routes.{roles_of, route, Endpoint, unmatched}
use financial_crime_complian.Auth.Tokens.{
  Moment, authenticate, Role, Crypto, Authenticator, Principal,
}
use financial_crime_complian.Common.{
  List, Bool, true, any, String, if◌then◌else◌, ◌==◌, false, Option, none, some,
}
use financial_crime_complian.Auth.Keys.{KeyCache}
use financial_crime_complian.Application.Onboarding.{CustomerRepository}
use financial_crime_complian.Memory.{Repository}
use financial_crime_complian.Transport.Respond.{reject, Handler}
use financial_crime_complian.Application.Env.{Env}
use financial_crime_complian.Application.Transactions.{TransactionRepository}
use financial_crime_complian.Memory.Ports.{
  customer_port, transaction_port, read_port, case_port, due_diligence_port, screening_port,
}
use financial_crime_complian.Application.Queries.{TokenCodec, ReadRepository}
use financial_crime_complian.Application.Screening.Gather.{Provider}
use financial_crime_complian.Effects.{Result, err, ok}
use financial_crime_complian.Application.Cases.{CaseRepository}
use financial_crime_complian.Application.DueDiligence.{DueDiligenceRepository}
use financial_crime_complian.Application.Screening.{ScreeningRepository}

-- The repository behind each of the services.
pub record Ports (S : Type 0) : Type 0 where
  pub customers : CustomerRepository S
  pub transactions : TransactionRepository S
  pub queries : ReadRepository S
  pub cases : CaseRepository S
  pub due_diligence : DueDiligenceRepository S
  pub screening : ScreeningRepository S

-- What NewHandler is given besides; `metrics` is the Handler of the registry, which reads the
-- Authorization header.
pub record Server (B K : Type 0) : Type 0 where
  pub crypto : Crypto B K
  pub authenticator : Authenticator
  pub codec : TokenCodec
  pub parse_address : String → Option String
  pub webhook_url : String
  pub metrics : String → Response

-- What one request meets outside: the clocks and identifiers, the screening provider, and whether
-- the database answers a ping.
pub record Visit (K : Type 0) : Type 0 where
  pub moment : Moment K
  pub env : Env
  pub provider : Provider
  pub database_is_up : Bool

pub record State (S K : Type 0) : Type 0 where
  pub store : S
  pub keys : KeyCache K

-- ==
abbrev pub role_eq : Role → Role → Bool
role_eq Role.analyst Role.analyst = true
role_eq Role.reviewer Role.reviewer = true
role_eq Role.admin Role.admin = true
role_eq (Role.other s) (Role.other t) = s == t
role_eq _ _ = false

abbrev pub is_allowed : List Role → Role → Bool
is_allowed roles role = any (λ r. role_eq r role) roles

-- Handler.ready
unfoldable pub ready : Bool → Response
unfolding write_json write_error
ready true = write_json 200 (Reply.text_status "ready")
ready false = write_error 503 "not_ready" "Database is not available"

unfoldable pub forbidden : Response
unfolding write_error
forbidden = write_error 403 "forbidden" "The authenticated role cannot perform this action"

module _ {S B K : Type 0} (ports : Ports S) (server : Server B K) (v : Visit K) where
  -- The routes without authentication; no other route comes here.
  unfoldable pub open_route : Endpoint → Request → Response
  unfolding write_json ready
  open_route Endpoint.ready q = ready v.database_is_up
  open_route Endpoint.metrics q = server.metrics q.authorization
  open_route _ q = write_json 200 (Reply.text_status "ok")

  -- The handler of each route, called with the principal of the request's context.
  unfoldable pub dispatch : Endpoint → Principal → Request → Handler S
  unfolding open_route reject
  dispatch Endpoint.onboard_customer by q = Customers.onboard_customer ports.customers v.env by q
  dispatch Endpoint.list_customers by q = Customers.list_customers server.codec ports.queries q
  dispatch (Endpoint.get_customer id) by q = Customers.get_customer server.codec ports.queries id
  dispatch (Endpoint.list_customer_transactions id) by q =
      Customers.list_customer_transactions server.codec ports.queries id q
  dispatch (Endpoint.list_audit_events id) by q =
      Customers.list_audit_events server.codec ports.queries id q
  dispatch (Endpoint.list_customer_activity id) by q =
      Customers.list_customer_activity server.codec ports.queries id q
  dispatch (Endpoint.review_customer decision id) by q =
      Customers.review_customer ports.customers v.env by decision id q
  dispatch Endpoint.ingest_transaction by q =
      Transactions.ingest_transaction ports.transactions v.env by q
  dispatch Endpoint.list_alerts by q = Transactions.list_alerts server.codec ports.queries q
  dispatch (Endpoint.close_alert id) by q =
      Transactions.close_alert ports.transactions v.env by id q
  dispatch Endpoint.list_cases by q = Cases.list_cases server.codec ports.queries q
  dispatch Endpoint.create_case by q = Cases.create_case ports.cases v.env by q
  dispatch (Endpoint.get_case id) by q = Cases.get_case ports.cases id
  dispatch (Endpoint.assign_case id) by q = Cases.assign_case ports.cases v.env by id q
  dispatch (Endpoint.comment_case id) by q = Cases.comment_case ports.cases v.env by id q
  dispatch (Endpoint.resolve_case id) by q = Cases.resolve_case ports.cases v.env by id q
  dispatch (Endpoint.get_due_diligence id) by q =
      DueDiligence.get_due_diligence ports.due_diligence id
  dispatch (Endpoint.update_due_diligence id) by q =
      DueDiligence.update_due_diligence ports.due_diligence v.env by id q
  dispatch (Endpoint.add_beneficial_owner id) by q =
      DueDiligence.add_beneficial_owner ports.due_diligence v.env by id q
  dispatch (Endpoint.add_kyc_document id) by q =
      DueDiligence.add_kyc_document ports.due_diligence v.env by id q
  dispatch (Endpoint.review_kyc_document id) by q =
      DueDiligence.review_kyc_document ports.due_diligence v.env by id q
  dispatch (Endpoint.screen_customer id) by q =
      Screening.screen_customer ports.screening v.env by v.provider server.webhook_url id
  dispatch (Endpoint.list_screening_matches id) by q =
      Screening.list_screening_matches ports.screening id
  dispatch (Endpoint.disposition_screening_match id) by q =
      Screening.disposition_screening_match ports.screening v.env by id q
  dispatch (Endpoint.get_screening_schedule id) by q =
      Screening.get_screening_schedule ports.screening id
  dispatch (Endpoint.update_screening_schedule id) by q =
      Screening.update_screening_schedule ports.screening v.env by id q
  dispatch Endpoint.list_notifications by q = Screening.list_notifications ports.screening
  dispatch (Endpoint.read_notification id) by q =
      Screening.read_notification ports.screening v.env by id
  dispatch Endpoint.get_notification_preference by q =
      Screening.get_notification_preference ports.screening by
  dispatch Endpoint.update_notification_preference by q =
      Screening.update_notification_preference ports.screening v.env by server.parse_address q
  dispatch e by q = reject (open_route e q)

  -- requireRoles
  unfoldable pub require_roles : List Role → (Principal → Handler S) → Principal → Handler S
  unfolding reject forbidden
  require_roles roles next by = if is_allowed roles by.role then next by else reject forbidden

  -- What the middleware of authentication does with the result of Authenticate.
  unfoldable pub admit :
      (Principal → Handler S) → Result Principal × KeyCache K → S → Response × State S K
  unfolding unauthenticated
  admit next (err e, keys) s = (unauthenticated, record { store = s; keys = keys })
  admit next (ok by, keys) s =
      let (response, s') = next by s in (response, record { store = s'; keys = keys })

  -- The function authenticate
  unfoldable pub authenticated :
      (Principal → Handler S) → Request → State S K → Response × State S K
  unfolding authenticate admit
  authenticated next q s =
      admit next (authenticate server.crypto server.authenticator v.moment q.authorization s.keys)
        s.store

  unfoldable pub serve_endpoint : Endpoint → Request → State S K → Response × State S K
  unfolding roles_of authenticated require_roles dispatch open_route
  serve_endpoint e q s = elim (roles_of e) [
    | none ↦ (open_route e q, s)
    | some roles ↦ authenticated (require_roles roles (λ by. dispatch e by q)) q s
  ]

  -- ServeHTTP of the handler that NewHandler makes.
  unfoldable pub serve : Request → State S K → Response × State S K
  unfolding route unmatched serve_endpoint
  serve q s = elim (route q.method q.segments) [
    | none ↦ (unmatched q.segments, s)
    | some e ↦ serve_endpoint e q s
  ]

-- The services over memory/repository.go.
abbrev pub memory_ports : Ports Repository
memory_ports = record {
  customers = customer_port;
  transactions = transaction_port;
  queries = read_port;
  cases = case_port;
  due_diligence = due_diligence_port;
  screening = screening_port;
}
