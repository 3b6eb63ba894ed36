-- ===== src/Transport/FourEyes.antt =====
-- internal/transport/httpapi/handler.go: customers that were made and decided over HTTP.
use financial_crime_complian.Common.Dict.{get}
use financial_crime_complian.Common.{List, String, ◌≡◌, some, ap, sym, ◌∙◌}
use financial_crime_complian.Domain.Customer.{Customer}
use financial_crime_complian.Auth.Keys.{KeyCache}
use financial_crime_complian.Memory.{new_repository}
use financial_crime_complian.Platform.Customers.Approval.{IsSound, run-IsSound}
use financial_crime_complian.Transport.Api.{Server, Visit}
use financial_crime_complian.Transport.Histories.{serve_all, serve_all-refines}
use financial_crime_complian.Transport.Requests.{Request}

-- Four eyes over HTTP: after any list of requests to a server whose repository was empty, every
-- customer waits for a decision, or has been approved or rejected, at a known time, by an actor who
-- is not the one that created it.
pub serve_all-IsSound :
    {B K : Type 0} (server : Server B K) (qs : List (Visit K × Request)) (keys : KeyCache K)
    (id : String) (c : Customer)
    → get id (serve_all server qs (record { store = new_repository; keys = keys })).store.customers
      ≡ some c
    → IsSound c
serve_all-IsSound server qs keys id c found =
    let (cs, _, e) = serve_all-refines server qs (record { store = new_repository; keys = keys }) in
    run-IsSound cs id c (sym (ap (λ r. get id r.customers) e) ∙ found)
