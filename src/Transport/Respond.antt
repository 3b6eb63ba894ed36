-- ===== src/Transport/Respond.antt =====
-- internal/transport/httpapi/handler.go: how a handler turns what a service returns into an answer.
use financial_crime_complian.Domain.Errors.{Error}
use financial_crime_complian.Transport.Requests.{invalid_json, write_error, Response}
use financial_crime_complian.Common.{Option, some, none}
use financial_crime_complian.Effects.{Result, Exec, err, ok}
use financial_crime_complian.Application.Queries.{PageRequest}

-- A handler, over the store of the services.
abbrev pub Handler : Type 0 → Type 0
Handler S = S → Response × S

abbrev pub answer : {A : Type 0} → (Error → Response) → (A → Response) → Result A → Response
answer on_error on_value (ok a) = on_value a
answer on_error on_value (err e) = on_error e

module _ {S : Type 0} where
  unfoldable pub reject : Response → Handler S
  reject response s = (response, s)

  -- result, err := service.Method(...), with the answers to an error and to a result.
  unfoldable pub respond : {A : Type 0} → (Error → Response) → (A → Response) → Exec S A → Handler S
  respond on_error on_value m s = let (r, s') = m s in (answer on_error on_value r, s')

  -- if decodeJSON(w, r, &request) != nil { ... return }
  unfoldable pub with_body : {A : Type 0} → Option A → (A → Handler S) → Handler S
  unfolding reject invalid_json
  with_body none next = reject invalid_json
  with_body (some a) next = next a

  -- page, err := pageRequest(r); if err != nil { ... return }
  unfoldable pub with_page : Result PageRequest → (PageRequest → Handler S) → Handler S
  unfolding reject write_error
  with_page (err e) next =
      reject (write_error 422 "invalid_page" "Pagination parameters are invalid")
  with_page (ok page) next = next page
