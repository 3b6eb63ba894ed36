-- ===== src/Transport/Refusals.antt =====
-- internal/transport/httpapi/handler.go: requests that are refused.
use financial_crime_complian.Memory.{Repository}
use financial_crime_complian.Transport.Respond.{reject}
use financial_crime_complian.Common.{
  inl, ◌≡◌, ◌<◌, ◌⊎◌, refl, inr, arith, ◌≤◌, Option-cases, List, Bool-cases,
}
use financial_crime_complian.Transport.Requests.{Response, Request}
use financial_crime_complian.Effects.{Result, ok, err}
use financial_crime_complian.Transport.Api.{
  Server, Visit, dispatch, memory_ports, State, admit, serve, serve_endpoint, require_roles,
  authenticated, is_allowed,
}
use financial_crime_complian.Auth.Tokens.{Principal, Role}
use financial_crime_complian.Transport.Routes.{Endpoint, roles_of, route}
use financial_crime_complian.Auth.Keys.{KeyCache}
use financial_crime_complian.Transport.Harmless.{dispatch-IsHarmless}

module _ {B K : Type 0} (server : Server B K) (v : Visit K) (q : Request)
    (s : State Repository K) where
  abbrev Unharmed : Response × State Repository K → Type 0
  Unharmed x = (x.1.store ≡ s.store) ⊎ (x.0.status < 400)

  admit-Unharmed :
      (e : Endpoint) (roles : List Role) (x : Result Principal × KeyCache K)
      → Unharmed (
          admit memory_ports server v
            (require_roles memory_ports server v roles
              (λ by. dispatch memory_ports server v e by q))
            x
            s.store)
  unfolding admit require_roles reject
  admit-Unharmed e roles (err x, keys) = inl refl
  admit-Unharmed e roles (ok by, keys) = elim (Bool-cases (is_allowed roles by.role)) [
    | inl h ↦ rw h (dispatch-IsHarmless server v by q s.store e)
    | inr h ↦ inl (rw h)
  ]

  endpoint-Unharmed : (e : Endpoint) → Unharmed (serve_endpoint memory_ports server v e q s)
  unfolding serve_endpoint authenticated
  endpoint-Unharmed e = elim (Option-cases (roles_of e)) [
    | inl n ↦ inl (rw (n, serve_endpoint))
    | inr (roles, n) ↦ rw (n, serve_endpoint) (admit-Unharmed e roles _)
  ]

  serve-Unharmed : Unharmed (serve memory_ports server v q s)
  unfolding serve
  serve-Unharmed = elim (Option-cases (route q.method q.segments)) [
    | inl n ↦ inl (rw (n, serve))
    | inr (e, n) ↦ rw (n, serve) (endpoint-Unharmed e)
  ]

  -- A refused request changes nothing: where the answer to a request has a status of 400 or more, the
  -- repository is as it was before the request.
  pub refusal_changes_nothing :
      400 ≤ (serve memory_ports server v q s).0.status
      → (serve memory_ports server v q s).1.store ≡ s.store
  refusal_changes_nothing h = elim serve-Unharmed [ inl e ↦ e | inr low ↦ absurd (omega arith) ]
