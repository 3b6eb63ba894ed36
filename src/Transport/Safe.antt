-- ===== src/Transport/Safe.antt =====
-- internal/transport/httpapi/handler.go: the routes for GET, which only read.
use financial_crime_complian.Common.{
  Option, Bool, some, List, false, ◌≡◌, String, true, none, ◌∷◌, arith, [], Option-cases, subst,
  inl, inr, Bool-cases, refl,
}
use financial_crime_complian.Transport.Routes.{Endpoint, match_path, route, as_get, roles_of}
use financial_crime_complian.Transport.Requests.{Method, Request}
use financial_crime_complian.Transport.Api.{
  Server, Visit, State, dispatch, serve, admit, serve_endpoint, memory_ports, require_roles,
  authenticated, is_allowed,
}
use financial_crime_complian.Auth.Tokens.{Principal, Role}
use financial_crime_complian.Memory.{Repository}
use financial_crime_complian.Transport.Respond.{reject}
use financial_crime_complian.Transport.Reads.{
  list_customers-Reads, get_customer-Reads, list_customer_transactions-Reads,
  list_audit_events-Reads, list_customer_activity-Reads, list_alerts-Reads, list_cases-Reads,
  get_case-Reads, get_due_diligence-Reads, list_screening_matches-Reads,
  get_screening_schedule-Reads, list_notifications-Reads, get_notification_preference-Reads,
}
use financial_crime_complian.Effects.{Result, err, ok}
use financial_crime_complian.Auth.Keys.{KeyCache}

-- The routes that a pattern for GET leads to.
abbrev pub is_reading : Endpoint → Bool
is_reading Endpoint.onboard_customer = false
is_reading (Endpoint.review_customer _ _) = false
is_reading Endpoint.ingest_transaction = false
is_reading (Endpoint.close_alert _) = false
is_reading Endpoint.create_case = false
is_reading (Endpoint.assign_case _) = false
is_reading (Endpoint.comment_case _) = false
is_reading (Endpoint.resolve_case _) = false
is_reading (Endpoint.update_due_diligence _) = false
is_reading (Endpoint.add_beneficial_owner _) = false
is_reading (Endpoint.add_kyc_document _) = false
is_reading (Endpoint.review_kyc_document _) = false
is_reading (Endpoint.screen_customer _) = false
is_reading (Endpoint.disposition_screening_match _) = false
is_reading (Endpoint.update_screening_schedule _) = false
is_reading (Endpoint.read_notification _) = false
is_reading Endpoint.update_notification_preference = false
is_reading _ = true

abbrev Reading : Option Endpoint → Type 0
Reading none = Unit
Reading (some e) = is_reading e ≡ true

match_get-Reading : (path : List String) → Reading (match_path Method.get path)
unfolding match_path
match_get-Reading [] = tt
match_get-Reading (a ∷ []) = ground arith
match_get-Reading (a ∷ b ∷ []) = ground arith
match_get-Reading (a ∷ b ∷ c ∷ []) = ground arith
match_get-Reading (a ∷ b ∷ c ∷ d ∷ []) = ground arith
match_get-Reading (a ∷ b ∷ c ∷ d ∷ e ∷ rest) = tt

module _ {B K : Type 0} (server : Server B K) (v : Visit K) (by : Principal) (q : Request)
    (r : Repository) where
  dispatch-Reads :
      (e : Endpoint) → is_reading e ≡ true → (dispatch memory_ports server v e by q r).1 ≡ r
  unfolding dispatch
  dispatch-Reads Endpoint.health h = refl
  dispatch-Reads Endpoint.ready h = refl
  dispatch-Reads Endpoint.metrics h = refl
  dispatch-Reads Endpoint.list_customers h = list_customers-Reads server.codec q r
  dispatch-Reads (Endpoint.get_customer id) h = get_customer-Reads id r server.codec
  dispatch-Reads (Endpoint.list_customer_transactions id) h =
      list_customer_transactions-Reads server.codec q r id
  dispatch-Reads (Endpoint.list_audit_events id) h = list_audit_events-Reads server.codec q r id
  dispatch-Reads (Endpoint.list_customer_activity id) h =
      list_customer_activity-Reads server.codec q r id
  dispatch-Reads Endpoint.list_alerts h = list_alerts-Reads server.codec q r
  dispatch-Reads Endpoint.list_cases h = list_cases-Reads server.codec q r
  dispatch-Reads (Endpoint.get_case id) h = get_case-Reads id r
  dispatch-Reads (Endpoint.get_due_diligence id) h = get_due_diligence-Reads id r
  dispatch-Reads (Endpoint.list_screening_matches id) h = list_screening_matches-Reads id r
  dispatch-Reads (Endpoint.get_screening_schedule id) h = get_screening_schedule-Reads id r
  dispatch-Reads Endpoint.list_notifications h = list_notifications-Reads r
  dispatch-Reads Endpoint.get_notification_preference h = get_notification_preference-Reads by r
  dispatch-Reads Endpoint.onboard_customer h = cc
  dispatch-Reads (Endpoint.review_customer _ _) h = cc
  dispatch-Reads Endpoint.ingest_transaction h = cc
  dispatch-Reads (Endpoint.close_alert _) h = cc
  dispatch-Reads Endpoint.create_case h = cc
  dispatch-Reads (Endpoint.assign_case _) h = cc
  dispatch-Reads (Endpoint.comment_case _) h = cc
  dispatch-Reads (Endpoint.resolve_case _) h = cc
  dispatch-Reads (Endpoint.update_due_diligence _) h = cc
  dispatch-Reads (Endpoint.add_beneficial_owner _) h = cc
  dispatch-Reads (Endpoint.add_kyc_document _) h = cc
  dispatch-Reads (Endpoint.review_kyc_document _) h = cc
  dispatch-Reads (Endpoint.screen_customer _) h = cc
  dispatch-Reads (Endpoint.disposition_screening_match _) h = cc
  dispatch-Reads (Endpoint.update_screening_schedule _) h = cc
  dispatch-Reads (Endpoint.read_notification _) h = cc
  dispatch-Reads Endpoint.update_notification_preference h = cc

module _ {B K : Type 0} (server : Server B K) (v : Visit K) (q : Request)
    (s : State Repository K) where
  admit-Reads :
      (e : Endpoint) (roles : List Role) (x : Result Principal × KeyCache K)
      → is_reading e ≡ true
      → (admit memory_ports server v
          (require_roles memory_ports server v roles (λ by. dispatch memory_ports server v e by q))
          x
          s.store).1.store
        ≡ s.store
  unfolding admit require_roles reject
  admit-Reads e roles (err x, keys) h = refl
  admit-Reads e roles (ok by, keys) h = elim (Bool-cases (is_allowed roles by.role)) [
    | inl a ↦ rw a (dispatch-Reads server v by q s.store e h)
    | inr a ↦ rw a
  ]

  endpoint-Reads :
      (e : Endpoint)
      → is_reading e ≡ true
      → (serve_endpoint memory_ports server v e q s).1.store ≡ s.store
  unfolding serve_endpoint authenticated
  endpoint-Reads e h = elim (Option-cases (roles_of e)) [
    | inl n ↦ rw (n, serve_endpoint)
    | inr (roles, n) ↦ rw (n, serve_endpoint) (admit-Reads e roles _ h)
  ]

  routed-Reads :
      (e : Endpoint)
      → as_get q.method ≡ Method.get
      → route q.method q.segments ≡ some e
      → is_reading e ≡ true
  unfolding route
  routed-Reads e h n = subst Reading (rw h at n) (match_get-Reading q.segments)

  -- GET and HEAD are safe: a request with one of these methods leaves the repository as it was, on
  -- every path and with every token.
  pub get_is_safe :
      as_get q.method ≡ Method.get → (serve memory_ports server v q s).1.store ≡ s.store
  unfolding serve
  get_is_safe h = elim (Option-cases (route q.method q.segments)) [
    | inl n ↦ rw (n, serve)
    | inr (e, n) ↦ rw (n, serve) (endpoint-Reads e (routed-Reads e h n))
  ]
