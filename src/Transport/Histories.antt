-- ===== src/Transport/Histories.antt =====
-- internal/transport/httpapi/handler.go: requests one after the other.
use financial_crime_complian.Auth.Authentic.{IsAuthentic}
use financial_crime_complian.Transport.Api.{Server, serve, Visit, State, memory_ports}
use financial_crime_complian.Common.{List, [], ◌∷◌, ◌≡◌, refl, ◌∙◌, ap}
use financial_crime_complian.Transport.Requests.{Request}
use financial_crime_complian.Memory.{Repository}
use financial_crime_complian.Platform.{Call, run, step}
use financial_crime_complian.Auth.Tokens.{Principal}
use financial_crime_complian.Auth.Keys.{KeyCache}
use financial_crime_complian.Transport.Effects.{Acts}
use financial_crime_complian.Transport.Authority.{
  serve-IsAuthorised, IsAuthorised, no_call, one_call,
}

module _ {B K : Type 0} (server : Server B K) where
  -- The state after a list of requests, each with what it meets outside.
  unfoldable pub serve_all : List (Visit K × Request) → State Repository K → State Repository K
  unfolding serve
  serve_all [] s = s
  serve_all ((v, q) ∷ qs) s = serve_all qs (serve memory_ports server v q s).1

  -- The calls behind a list of requests: each request makes none and leaves the repository as it was,
  -- or does what one call does, in the name of a principal whose authentic token it bears.
  pub data Calls : List (Visit K × Request) → State Repository K → List Call → Type 0 where
    ended : (s : State Repository K) → Calls [] s []
    skipped :
        {v : Visit K} {q : Request} {qs : List (Visit K × Request)} {s : State Repository K}
        {cs : List Call}
        → (serve memory_ports server v q s).1.store ≡ s.store
        → Calls qs (serve memory_ports server v q s).1 cs
        → Calls ((v, q) ∷ qs) s cs
    called :
        {v : Visit K} {q : Request} {qs : List (Visit K × Request)} {s : State Repository K}
        {cs : List Call} (by : Principal) (c : Call) (keys : KeyCache K)
        → IsAuthentic server.crypto server.authenticator v.moment q.authorization s.keys keys by
        → Acts by.subject c
        → (serve memory_ports server v q s).1.store ≡ step c s.store
        → Calls qs (serve memory_ports server v q s).1 cs
        → Calls ((v, q) ∷ qs) s (c ∷ cs)

  abbrev Refines : List (Visit K × Request) → State Repository K → Repository → Type 0
  Refines qs s t = (cs : List Call) × Calls qs s cs × (t ≡ run cs s.store)

  step-Refines :
      (v : Visit K) (q : Request) (qs : List (Visit K × Request)) (s t : State Repository K)
      (end : Repository)
      → (serve memory_ports server v q s).1 ≡ t
      → IsAuthorised server v q s t
      → Refines qs t end
      → Refines ((v, q) ∷ qs) s end
  unfolding run
  step-Refines v q qs s t end e (no_call h) (cs, calls, k) =
      (cs, skipped (ap (λ x. x.store) e ∙ h) (rw e calls), k ∙ ap (run cs) h)
  step-Refines v q qs s t end e (one_call x roles by c _ _ authentic _ acts h) (cs, calls, k) = (
    c ∷ cs,
    called by c t.keys authentic acts (ap (λ x. x.store) e ∙ h) (rw e calls),
    k ∙ ap (run cs) h,
  )

  -- The HTTP interface refines the platform: what a list of requests makes of the repository, a
  -- history of the platform's calls makes of it, in the order of the requests: each request leaves
  -- the repository as it was and has no call, or it does what its one call does, and the call is made
  -- in the name of the principal whose authentic token the request bears.
  pub serve_all-refines :
      (qs : List (Visit K × Request)) (s : State Repository K)
      → (cs : List Call) × Calls qs s cs × ((serve_all qs s).store ≡ run cs s.store)
  unfolding serve_all run
  serve_all-refines [] s = ([], ended s, refl)
  serve_all-refines ((v, q) ∷ qs) s =
      step-Refines v q qs s _ _ refl (serve-IsAuthorised server v q s) (serve_all-refines qs _)
