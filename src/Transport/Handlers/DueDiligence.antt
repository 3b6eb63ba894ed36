-- ===== src/Transport/Handlers/DueDiligence.antt =====
-- internal/transport/httpapi/handler.go: the handlers of customer due diligence.
use financial_crime_complian.Application.DueDiligence as DueDiligence
use financial_crime_complian.Application.DueDiligence.{
  DueDiligenceRepository, review_document, update_profile, add_document, add_owner,
}
use financial_crime_complian.Transport.Requests.{
  write_error, read_error, write_json, Response, Request, Reply,
}
use financial_crime_complian.Transport.Handlers.Customers.{customer_failure}
use financial_crime_complian.Application.Env.{Env}
use financial_crime_complian.Transport.Respond.{respond, with_body, Handler}
use financial_crime_complian.Auth.Tokens.{Principal}
use financial_crime_complian.Domain.Errors.{Error}
use financial_crime_complian.Common.{String}

unfoldable pub profile_failure : Error → Response
unfolding write_error customer_failure
profile_failure Error.invalid_due_diligence =
    write_error 422 "invalid_due_diligence" "CDD profile failed validation"
profile_failure e = customer_failure e

unfoldable pub owner_failure : Error → Response
unfolding write_error read_error
owner_failure Error.invalid_due_diligence =
    write_error 422 "invalid_beneficial_owner" "Beneficial owner failed validation"
owner_failure _ = read_error

unfoldable pub document_failure : Error → Response
unfolding write_error read_error
document_failure Error.invalid_due_diligence =
    write_error 422 "invalid_document" "KYC document failed validation"
document_failure _ = read_error

unfoldable pub document_review_failure : Error → Response
unfolding write_error read_error
document_review_failure Error.invalid_due_diligence =
    write_error 422 "invalid_review" "Document review failed validation"
document_review_failure Error.review_conflict =
    write_error 409 "review_conflict" "Document is not pending review"
document_review_failure _ = read_error

module _ {S : Type 0} (repo : DueDiligenceRepository S) where
  -- Handler.getDueDiligence, by writeCDDResult
  unfoldable pub get_due_diligence : String → Handler S
  unfolding DueDiligence.get respond customer_failure write_json
  get_due_diligence id =
      respond customer_failure (λ d. write_json 200 (Reply.due_diligence d))
        (DueDiligence.get repo id)

module _ {S : Type 0} (repo : DueDiligenceRepository S) (env : Env) (by : Principal) where
  -- Handler.updateDueDiligence
  unfoldable pub update_due_diligence : String → Request → Handler S
  unfolding update_profile with_body respond profile_failure write_json
  update_due_diligence id q = with_body q.body.profile λ p.
      respond profile_failure (λ x. write_json 200 (Reply.profile x))
        (update_profile repo env (record p { customer_id = id }) by.subject)

  -- Handler.addBeneficialOwner
  unfoldable pub add_beneficial_owner : String → Request → Handler S
  unfolding add_owner with_body respond owner_failure write_json
  add_beneficial_owner id q = with_body q.body.owner λ o.
      respond owner_failure (λ x. write_json 201 (Reply.owner x))
        (add_owner repo env (record o { customer_id = id }) by.subject)

  -- Handler.addKYCDocument
  unfoldable pub add_kyc_document : String → Request → Handler S
  unfolding add_document with_body respond document_failure write_json
  add_kyc_document id q = with_body q.body.document λ d.
      respond document_failure (λ x. write_json 201 (Reply.document x))
        (add_document repo env (record d { customer_id = id }) by.subject)

  -- Handler.reviewKYCDocument
  unfoldable pub review_kyc_document : String → Request → Handler S
  unfolding review_document with_body respond document_review_failure write_json
  review_kyc_document id q = with_body q.body.document_review λ status.
      respond document_review_failure (λ x. write_json 200 (Reply.document x))
        (review_document repo env id status by.subject)
