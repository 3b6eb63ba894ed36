-- ===== src/Transport/Authority.antt =====
-- internal/transport/httpapi/handler.go: who can change the repository through the HTTP interface.
use financial_crime_complian.Auth.Authentic.{IsAuthentic, authenticate-IsAuthentic}
use financial_crime_complian.Transport.Api.{
  Server, Visit, State, serve_endpoint, serve, authenticated, memory_ports, admit, require_roles,
  dispatch, is_allowed,
}
use financial_crime_complian.Transport.Requests.{Request}
use financial_crime_complian.Transport.Routes.{Endpoint, route, roles_of}
use financial_crime_complian.Common.{
  List, ◌≡◌, Option-cases, some, inl, inr, Bool-cases, true, refl,
}
use financial_crime_complian.Memory.{Repository}
use financial_crime_complian.Auth.Tokens.{Role, Principal, authenticate}
use financial_crime_complian.Platform.{Call, step}
use financial_crime_complian.Transport.Respond.{Handler, reject}
use financial_crime_complian.Auth.Keys.{KeyCache}
use financial_crime_complian.Effects.{Result, err, ok}
use financial_crime_complian.Transport.Effects.{Acts, OneCall}
use financial_crime_complian.Transport.Dispatch.{dispatch-OneCall}

module _ {B K : Type 0} (server : Server B K) (v : Visit K) (q : Request) where
  -- Between two states stands no call of the platform, or one that a principal makes: its token is
  -- authentic, and the route that the request matches names its role.
  pub data IsAuthorised (s t : State Repository K) : Type 0 where
    no_call : t.store ≡ s.store → IsAuthorised s t
    one_call :
        (e : Endpoint) (roles : List Role) (by : Principal) (c : Call)
        → route q.method q.segments ≡ some e
        → roles_of e ≡ some roles
        → IsAuthentic server.crypto server.authenticator v.moment q.authorization s.keys t.keys by
        → is_allowed roles by.role ≡ true
        → Acts by.subject c
        → t.store ≡ step c s.store
        → IsAuthorised s t

  module _ (e : Endpoint) (roles : List Role) (found : route q.method q.segments ≡ some e)
      (named : roles_of e ≡ some roles) (s : State Repository K) where
    handled : (by : Principal) → Handler Repository
    handled =
        require_roles memory_ports server v roles (λ by. dispatch memory_ports server v e by q)

    called :
        (by : Principal) (keys : KeyCache K) (t : Repository)
        → IsAuthentic server.crypto server.authenticator v.moment q.authorization s.keys keys by
        → is_allowed roles by.role ≡ true
        → OneCall by.subject s.store t
        → IsAuthorised s (record { store = t; keys = keys })
    called by keys t authentic allowed (OneCall.no_call h) = no_call h
    called by keys t authentic allowed (OneCall.one_call c h k) =
        one_call e roles by c found named authentic allowed h k

    admit-IsAuthorised :
        (x : Result Principal × KeyCache K)
        → authenticate server.crypto server.authenticator v.moment q.authorization s.keys ≡ x
        → IsAuthorised s (admit memory_ports server v handled x s.store).1
    unfolding admit handled require_roles reject
    admit-IsAuthorised (err x, keys) h = no_call refl
    admit-IsAuthorised (ok by, keys) h = elim (Bool-cases (is_allowed roles by.role)) [
      | inl yes' ↦
          called by keys _ (authenticate-IsAuthentic _ _ _ _ _ _ _ h) yes'
            (rw yes' (dispatch-OneCall server v by q s.store e))
      | inr no' ↦ no_call (rw no')
    ]

  endpoint-IsAuthorised :
      (e : Endpoint) (found : route q.method q.segments ≡ some e) (s : State Repository K)
      → IsAuthorised s (serve_endpoint memory_ports server v e q s).1
  unfolding serve_endpoint authenticated handled
  endpoint-IsAuthorised e found s = elim (Option-cases (roles_of e)) [
    | inl n ↦ no_call (rw (n, serve_endpoint))
    | inr (roles, n) ↦ rw (n, serve_endpoint) (admit-IsAuthorised e roles found n s _ refl)
  ]

  -- Nobody writes without authority: a request leaves the repository as it was, or makes one call of the
  -- platform; then its bearer token is authentic, its route names the role of the token's principal,
  -- and the call is made under the subject of that principal, whatever the body says.
  pub serve-IsAuthorised :
      (s : State Repository K) → IsAuthorised s (serve memory_ports server v q s).1
  unfolding serve
  serve-IsAuthorised s = elim (Option-cases (route q.method q.segments)) [
    | inl n ↦ no_call (rw (n, serve))
    | inr (e, n) ↦ rw (n, serve) (endpoint-IsAuthorised e n s)
  ]
