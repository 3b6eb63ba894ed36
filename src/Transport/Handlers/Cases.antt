-- ===== src/Transport/Handlers/Cases.antt =====
-- internal/transport/httpapi/handler.go: the handlers of cases.
use financial_crime_complian.Application.Cases.{create, assign, details, CaseRepository}
use financial_crime_complian.Application.Cases as Cases
use financial_crime_complian.Application.Queries as Queries
use financial_crime_complian.Application.Queries.{TokenCodec, ReadRepository}
use financial_crime_complian.Transport.Requests.{
  read_error, write_error, Response, write_json, Request, Reply,
}
use financial_crime_complian.Transport.Parameters.{page_request, to_case_status}
use financial_crime_complian.Application.Env.{Env}
use financial_crime_complian.Domain.Errors.{Error}
use financial_crime_complian.Transport.Respond.{respond, with_body, with_page, Handler}
use financial_crime_complian.Auth.Tokens.{Principal}
use financial_crime_complian.Common.{String}

unfoldable pub cases_failure : Error → Response
unfolding write_error read_error
cases_failure Error.invalid_page = write_error 422 "invalid_filter" "Case status is invalid"
cases_failure _ = read_error

unfoldable pub case_not_found : Response
unfolding write_error
case_not_found = write_error 404 "case_not_found" "Case was not found"

unfoldable pub get_failure : Error → Response
unfolding case_not_found read_error
get_failure Error.case_not_found = case_not_found
get_failure _ = read_error

unfoldable pub create_failure : Error → Response
unfolding write_error read_error
create_failure Error.invalid_case = write_error 422 "invalid_case" "Case data failed validation"
create_failure Error.alert_not_found = write_error 404 "alert_not_found" "Alert was not found"
create_failure Error.alert_conflict =
    write_error 409 "case_conflict" "Alert cannot be added to a new case"
create_failure Error.alert_has_case =
    write_error 409 "case_conflict" "Alert cannot be added to a new case"
create_failure _ = read_error

unfoldable pub comment_failure : Error → Response
unfolding write_error case_not_found read_error
comment_failure Error.invalid_case = write_error 422 "invalid_case" "Comment is required"
comment_failure Error.case_not_found = case_not_found
comment_failure Error.case_conflict =
    write_error 409 "case_conflict" "Resolved cases cannot be changed"
comment_failure _ = read_error

-- writeCaseMutation, on an error
unfoldable pub mutation_failure : Error → Response
unfolding write_error case_not_found read_error
mutation_failure Error.invalid_case = write_error 422 "invalid_case" "Case update failed validation"
mutation_failure Error.case_not_found = case_not_found
mutation_failure Error.case_conflict =
    write_error 409 "case_conflict" "Resolved cases cannot be changed"
mutation_failure Error.alert_conflict =
    write_error 409 "case_conflict" "Resolved cases cannot be changed"
mutation_failure _ = read_error

module _ {S : Type 0} (codec : TokenCodec) (repo : ReadRepository S) where
  -- Handler.listCases
  unfoldable pub list_cases : Request → Handler S
  unfolding with_page Queries.list_cases respond cases_failure write_json to_case_status
  list_cases q = with_page (page_request codec q) λ page.
      respond cases_failure (λ p. write_json 200 (Reply.cases p))
        (Queries.list_cases codec repo (to_case_status q.status) page)

module _ {S : Type 0} (repo : CaseRepository S) where
  -- Handler.getCase
  unfoldable pub get_case : String → Handler S
  unfolding details respond get_failure write_json
  get_case id = respond get_failure (λ c. write_json 200 (Reply.case_details c)) (details repo id)

module _ {S : Type 0} (repo : CaseRepository S) (env : Env) (by : Principal) where
  -- Handler.createCase
  unfoldable pub create_case : Request → Handler S
  unfolding create with_body respond create_failure write_json
  create_case q = with_body q.body.investigation λ b.
      respond create_failure (λ c. write_json 201 (Reply.investigation c))
        (create repo env b.alert_id b.title b.priority by.subject)

  -- Handler.assignCase
  unfoldable pub assign_case : String → Request → Handler S
  unfolding assign with_body respond mutation_failure write_json
  assign_case id q = with_body q.body.case_text λ b.
      respond mutation_failure (λ c. write_json 200 (Reply.investigation c))
        (assign repo env id b.assignee by.subject)

  -- Handler.commentCase
  unfoldable pub comment_case : String → Request → Handler S
  unfolding Cases.comment with_body respond comment_failure write_json
  comment_case id q = with_body q.body.case_text λ b.
      respond comment_failure (λ c. write_json 201 (Reply.comment c))
        (Cases.comment repo env id b.body by.subject)

  -- Handler.resolveCase
  unfoldable pub resolve_case : String → Request → Handler S
  unfolding Cases.resolve with_body respond mutation_failure write_json
  resolve_case id q = with_body q.body.case_text λ b.
      respond mutation_failure (λ c. write_json 200 (Reply.investigation c))
        (Cases.resolve repo env id b.resolution by.subject)
