-- ===== src/Transport/Urls.antt =====
-- internal/transport/httpapi/handler.go: the address of each route.
use financial_crime_complian.Domain.Customer.{ReviewDecision}
use financial_crime_complian.Common.{String, List, ◌≡◌, ◌∷◌, true, some, [], arith, refl, false}
use financial_crime_complian.Transport.Routes.{Endpoint, route, match_path}
use financial_crime_complian.Application.Onboarding.{is_decision}
use financial_crime_complian.Transport.Requests.{Method}
use financial_crime_complian.Common.Text.{is_empty}

-- The method and the path of the pattern of a route, with its wildcards filled in.
pub method_of : Endpoint → Method
method_of Endpoint.onboard_customer = Method.post
method_of (Endpoint.review_customer _ _) = Method.post
method_of Endpoint.ingest_transaction = Method.post
method_of (Endpoint.close_alert _) = Method.post
method_of Endpoint.create_case = Method.post
method_of (Endpoint.assign_case _) = Method.post
method_of (Endpoint.comment_case _) = Method.post
method_of (Endpoint.resolve_case _) = Method.post
method_of (Endpoint.update_due_diligence _) = Method.put
method_of (Endpoint.add_beneficial_owner _) = Method.post
method_of (Endpoint.add_kyc_document _) = Method.post
method_of (Endpoint.review_kyc_document _) = Method.post
method_of (Endpoint.screen_customer _) = Method.post
method_of (Endpoint.disposition_screening_match _) = Method.post
method_of (Endpoint.update_screening_schedule _) = Method.put
method_of (Endpoint.read_notification _) = Method.post
method_of Endpoint.update_notification_preference = Method.put
method_of _ = Method.get

abbrev of_customer : String → String → List String
of_customer id verb = "v1" ∷ "customers" ∷ id ∷ verb ∷ []

abbrev of_case : String → String → List String
of_case id verb = "v1" ∷ "cases" ∷ id ∷ verb ∷ []

abbrev verb_of : ReviewDecision → String
verb_of ReviewDecision.reject = "reject"
verb_of _ = "approve"

pub path_of : Endpoint → List String
path_of Endpoint.health = "healthz" ∷ []
path_of Endpoint.ready = "readyz" ∷ []
path_of Endpoint.metrics = "metrics" ∷ []
path_of Endpoint.onboard_customer = "v1" ∷ "customers" ∷ []
path_of Endpoint.list_customers = "v1" ∷ "customers" ∷ []
path_of (Endpoint.get_customer id) = "v1" ∷ "customers" ∷ id ∷ []
path_of (Endpoint.list_customer_transactions id) = of_customer id "transactions"
path_of (Endpoint.list_audit_events id) = of_customer id "audit-events"
path_of (Endpoint.list_customer_activity id) = of_customer id "activity"
path_of (Endpoint.review_customer decision id) = of_customer id (verb_of decision)
path_of Endpoint.ingest_transaction = "v1" ∷ "transactions" ∷ []
path_of Endpoint.list_alerts = "v1" ∷ "alerts" ∷ []
path_of (Endpoint.close_alert id) = "v1" ∷ "alerts" ∷ id ∷ "close" ∷ []
path_of Endpoint.list_cases = "v1" ∷ "cases" ∷ []
path_of Endpoint.create_case = "v1" ∷ "cases" ∷ []
path_of (Endpoint.get_case id) = "v1" ∷ "cases" ∷ id ∷ []
path_of (Endpoint.assign_case id) = of_case id "assign"
path_of (Endpoint.comment_case id) = of_case id "comments"
path_of (Endpoint.resolve_case id) = of_case id "resolve"
path_of (Endpoint.get_due_diligence id) = of_customer id "due-diligence"
path_of (Endpoint.update_due_diligence id) = of_customer id "due-diligence"
path_of (Endpoint.add_beneficial_owner id) = of_customer id "beneficial-owners"
path_of (Endpoint.add_kyc_document id) = of_customer id "kyc-documents"
path_of (Endpoint.review_kyc_document id) = "v1" ∷ "kyc-documents" ∷ id ∷ "review" ∷ []
path_of (Endpoint.screen_customer id) = of_customer id "screenings"
path_of (Endpoint.list_screening_matches id) = of_customer id "screening-matches"
path_of (Endpoint.disposition_screening_match id) =
    "v1" ∷ "screening-matches" ∷ id ∷ "disposition" ∷ []
path_of (Endpoint.get_screening_schedule id) = of_customer id "screening-schedule"
path_of (Endpoint.update_screening_schedule id) = of_customer id "screening-schedule"
path_of Endpoint.list_notifications = "v1" ∷ "notifications" ∷ []
path_of (Endpoint.read_notification id) = "v1" ∷ "notifications" ∷ id ∷ "read" ∷ []
path_of Endpoint.get_notification_preference = "v1" ∷ "notification-preferences" ∷ []
path_of Endpoint.update_notification_preference = "v1" ∷ "notification-preferences" ∷ []

-- The identifier in the path is not empty, and a decision is one of the two that have a route.
abbrev pub IsReachable : Endpoint → Type 0
IsReachable Endpoint.health = Unit
IsReachable Endpoint.ready = Unit
IsReachable Endpoint.metrics = Unit
IsReachable Endpoint.onboard_customer = Unit
IsReachable Endpoint.list_customers = Unit
IsReachable (Endpoint.review_customer d id) = (is_decision d ≡ true) × (is_empty id ≡ false)
IsReachable Endpoint.ingest_transaction = Unit
IsReachable Endpoint.list_alerts = Unit
IsReachable Endpoint.list_cases = Unit
IsReachable Endpoint.create_case = Unit
IsReachable Endpoint.list_notifications = Unit
IsReachable Endpoint.get_notification_preference = Unit
IsReachable Endpoint.update_notification_preference = Unit
IsReachable (Endpoint.get_customer id) = is_empty id ≡ false
IsReachable (Endpoint.list_customer_transactions id) = is_empty id ≡ false
IsReachable (Endpoint.list_audit_events id) = is_empty id ≡ false
IsReachable (Endpoint.list_customer_activity id) = is_empty id ≡ false
IsReachable (Endpoint.close_alert id) = is_empty id ≡ false
IsReachable (Endpoint.get_case id) = is_empty id ≡ false
IsReachable (Endpoint.assign_case id) = is_empty id ≡ false
IsReachable (Endpoint.comment_case id) = is_empty id ≡ false
IsReachable (Endpoint.resolve_case id) = is_empty id ≡ false
IsReachable (Endpoint.get_due_diligence id) = is_empty id ≡ false
IsReachable (Endpoint.update_due_diligence id) = is_empty id ≡ false
IsReachable (Endpoint.add_beneficial_owner id) = is_empty id ≡ false
IsReachable (Endpoint.add_kyc_document id) = is_empty id ≡ false
IsReachable (Endpoint.review_kyc_document id) = is_empty id ≡ false
IsReachable (Endpoint.screen_customer id) = is_empty id ≡ false
IsReachable (Endpoint.list_screening_matches id) = is_empty id ≡ false
IsReachable (Endpoint.disposition_screening_match id) = is_empty id ≡ false
IsReachable (Endpoint.get_screening_schedule id) = is_empty id ≡ false
IsReachable (Endpoint.update_screening_schedule id) = is_empty id ≡ false
IsReachable (Endpoint.read_notification id) = is_empty id ≡ false

-- Every route is reached at its own address: a request for the path of an endpoint by its method is
-- routed to that endpoint with the same identifier, if the identifier is not empty.
pub route-path_of : (e : Endpoint) → IsReachable e → route (method_of e) (path_of e) ≡ some e
unfolding route match_path method_of path_of
route-path_of Endpoint.health h = refl
route-path_of (Endpoint.review_customer ReviewDecision.approve id) h = rw h.1
route-path_of (Endpoint.review_customer ReviewDecision.reject id) h = rw h.1
route-path_of (Endpoint.review_customer (ReviewDecision.other s) id) h = cc
route-path_of e h = ground arith
