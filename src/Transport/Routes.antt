-- ===== src/Transport/Routes.antt =====
-- internal/transport/httpapi/handler.go: the routes of NewHandler, and the roles of each.
use financial_crime_complian.Common.{
  Option, String, List, some, if◌then◌else◌, ◌∷◌, Bool, [], none, ◌==◌, ◌||◌, false, true,
}
use financial_crime_complian.Transport.Requests.{Method, Response, Reply}
use financial_crime_complian.Domain.Customer.{ReviewDecision}
use financial_crime_complian.Auth.Tokens.{Role}
use financial_crime_complian.Common.Text.{is_empty}

-- A pattern of the ServeMux with the values of its wildcards.
pub data Endpoint : Type 0 where
  health ready metrics : Endpoint
  onboard_customer list_customers : Endpoint
  get_customer list_customer_transactions list_audit_events list_customer_activity :
      String → Endpoint
  review_customer : ReviewDecision → String → Endpoint
  ingest_transaction list_alerts : Endpoint
  close_alert : String → Endpoint
  list_cases create_case : Endpoint
  get_case assign_case comment_case resolve_case : String → Endpoint
  get_due_diligence update_due_diligence add_beneficial_owner add_kyc_document : String → Endpoint
  review_kyc_document : String → Endpoint
  screen_customer list_screening_matches disposition_screening_match : String → Endpoint
  get_screening_schedule update_screening_schedule : String → Endpoint
  list_notifications : Endpoint
  read_notification : String → Endpoint
  get_notification_preference update_notification_preference : Endpoint

-- The three lists of roles that the routes name.
abbrev pub makers : List Role
makers = Role.analyst ∷ Role.admin ∷ []

abbrev pub checkers : List Role
checkers = Role.reviewer ∷ Role.admin ∷ []

abbrev pub everyone : List Role
everyone = Role.analyst ∷ Role.reviewer ∷ Role.admin ∷ []

-- The roles that requireRoles is given; three routes have none and are open.
unfoldable pub roles_of : Endpoint → Option (List Role)
roles_of Endpoint.health = none
roles_of Endpoint.ready = none
roles_of Endpoint.metrics = none
roles_of Endpoint.onboard_customer = some makers
roles_of Endpoint.list_customers = some everyone
roles_of (Endpoint.get_customer _) = some everyone
roles_of (Endpoint.list_customer_transactions _) = some everyone
roles_of (Endpoint.list_audit_events _) = some everyone
roles_of (Endpoint.list_customer_activity _) = some everyone
roles_of (Endpoint.review_customer _ _) = some checkers
roles_of Endpoint.ingest_transaction = some makers
roles_of Endpoint.list_alerts = some everyone
roles_of (Endpoint.close_alert _) = some checkers
roles_of Endpoint.list_cases = some everyone
roles_of Endpoint.create_case = some everyone
roles_of (Endpoint.get_case _) = some everyone
roles_of (Endpoint.assign_case _) = some checkers
roles_of (Endpoint.comment_case _) = some everyone
roles_of (Endpoint.resolve_case _) = some checkers
roles_of (Endpoint.get_due_diligence _) = some everyone
roles_of (Endpoint.update_due_diligence _) = some makers
roles_of (Endpoint.add_beneficial_owner _) = some makers
roles_of (Endpoint.add_kyc_document _) = some makers
roles_of (Endpoint.review_kyc_document _) = some checkers
roles_of (Endpoint.screen_customer _) = some makers
roles_of (Endpoint.list_screening_matches _) = some everyone
roles_of (Endpoint.disposition_screening_match _) = some checkers
roles_of (Endpoint.get_screening_schedule _) = some everyone
roles_of (Endpoint.update_screening_schedule _) = some makers
roles_of Endpoint.list_notifications = some everyone
roles_of (Endpoint.read_notification _) = some everyone
roles_of Endpoint.get_notification_preference = some everyone
roles_of Endpoint.update_notification_preference = some everyone

-- A table of routes by the last, literal segment of the pattern.
abbrev pub find_route : {A : Type 0} → String → List (String × A) → Option A
find_route s [] = none
find_route s ((name, a) ∷ rest) = if s == name then some a else find_route s rest

-- GET /v1/{name}, and the same for POST and PUT.
abbrev collections : Method → List (String × Endpoint)
collections Method.get =
    ("customers", Endpoint.list_customers)
    ∷ ("alerts", Endpoint.list_alerts)
    ∷ ("cases", Endpoint.list_cases)
    ∷ ("notifications", Endpoint.list_notifications)
    ∷ ("notification-preferences", Endpoint.get_notification_preference)
    ∷ []
collections Method.post =
    ("customers", Endpoint.onboard_customer)
    ∷ ("transactions", Endpoint.ingest_transaction)
    ∷ ("cases", Endpoint.create_case)
    ∷ []
collections Method.put = ("notification-preferences", Endpoint.update_notification_preference) ∷ []
collections _ = []

-- GET /v1/{name}/{id}
abbrev items : Method → List (String × (String → Endpoint))
items Method.get = ("customers", Endpoint.get_customer) ∷ ("cases", Endpoint.get_case) ∷ []
items _ = []

-- {method} /v1/customers/{id}/{action}
abbrev customer_actions : Method → List (String × (String → Endpoint))
customer_actions Method.get =
    ("transactions", Endpoint.list_customer_transactions)
    ∷ ("audit-events", Endpoint.list_audit_events)
    ∷ ("activity", Endpoint.list_customer_activity)
    ∷ ("due-diligence", Endpoint.get_due_diligence)
    ∷ ("screening-matches", Endpoint.list_screening_matches)
    ∷ ("screening-schedule", Endpoint.get_screening_schedule)
    ∷ []
customer_actions Method.post =
    ("approve", Endpoint.review_customer ReviewDecision.approve)
    ∷ ("reject", Endpoint.review_customer ReviewDecision.reject)
    ∷ ("beneficial-owners", Endpoint.add_beneficial_owner)
    ∷ ("kyc-documents", Endpoint.add_kyc_document)
    ∷ ("screenings", Endpoint.screen_customer)
    ∷ []
customer_actions Method.put =
    ("due-diligence", Endpoint.update_due_diligence)
    ∷ ("screening-schedule", Endpoint.update_screening_schedule)
    ∷ []
customer_actions _ = []

-- POST /v1/cases/{id}/{action}
abbrev case_actions : List (String × (String → Endpoint))
case_actions =
    ("assign", Endpoint.assign_case)
    ∷ ("comments", Endpoint.comment_case)
    ∷ ("resolve", Endpoint.resolve_case)
    ∷ []

abbrev posts : Method → List (String × (String → Endpoint)) → List (String × (String → Endpoint))
posts Method.post table = table
posts _ table = []

-- The table of actions on the items of a collection.
abbrev actions : Method → List (String × List (String × (String → Endpoint)))
actions m =
    ("customers", customer_actions m)
    ∷ ("alerts", posts m (("close", Endpoint.close_alert) ∷ []))
    ∷ ("cases", posts m case_actions)
    ∷ ("kyc-documents", posts m (("review", Endpoint.review_kyc_document) ∷ []))
    ∷ ("screening-matches", posts m (("disposition", Endpoint.disposition_screening_match) ∷ []))
    ∷ ("notifications", posts m (("read", Endpoint.read_notification) ∷ []))
    ∷ []

-- A wildcard matches a segment that is not empty.
abbrev at : String → Option (String → Endpoint) → Option Endpoint
at id none = none
at id (some e) = if is_empty id then none else some (e id)

abbrev action : String → String → Option (List (String × (String → Endpoint))) → Option Endpoint
action id verb none = none
action id verb (some table) = at id (find_route verb table)

abbrev open_routes : Method → List (String × Endpoint)
open_routes Method.get =
    ("healthz", Endpoint.health) ∷ ("readyz", Endpoint.ready) ∷ ("metrics", Endpoint.metrics) ∷ []
open_routes _ = []

abbrev in_version : String → Option Endpoint → Option Endpoint
in_version v e = if v == "v1" then e else none

-- The pattern that a path matches, for a method that a pattern names.
unfoldable pub match_path : Method → List String → Option Endpoint
match_path m (name ∷ []) = find_route name (open_routes m)
match_path m (v ∷ name ∷ []) = in_version v (find_route name (collections m))
match_path m (v ∷ name ∷ id ∷ []) = in_version v (at id (find_route name (items m)))
match_path m (v ∷ name ∷ id ∷ verb ∷ []) =
    in_version v (action id verb (find_route name (actions m)))
match_path _ _ = none

-- A pattern for GET serves HEAD as well.
abbrev pub as_get : Method → Method
as_get Method.head = Method.get
as_get m = m

unfoldable pub route : Method → List String → Option Endpoint
unfolding match_path
route m path = match_path (as_get m) path

abbrev pub is_some {ℓ} : {A : Type ℓ} → Option A → Bool
is_some none = false
is_some (some _) = true

-- The ServeMux answers 405 where another method has a pattern for the path, and 404 otherwise.
unfoldable pub unmatched : List String → Response
unfolding match_path
unmatched path =
    if is_some (match_path Method.get path)
      || is_some (match_path Method.post path)
      || is_some (match_path Method.put path)
    then record { status = 405; replayed = false; reply = Reply.plain "Method Not Allowed" }
    else record { status = 404; replayed = false; reply = Reply.plain "404 page not found" }
