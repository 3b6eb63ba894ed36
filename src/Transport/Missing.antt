-- ===== src/Transport/Missing.antt =====
-- internal/transport/httpapi/handler.go: requests about a customer that does not exist.
use financial_crime_complian.Common.Dict.{get}
use financial_crime_complian.Transport.Handlers.Customers
use financial_crime_complian.Transport.Handlers.DueDiligence
use financial_crime_complian.Memory.DueDiligence as Profiles
use financial_crime_complian.Application.Env.{Env}
use financial_crime_complian.Auth.Tokens.{Principal}
use financial_crime_complian.Common.{String, ◌≡◌, none, false, some, Bool, ◌||◌, ◌∙◌, arith, refl}
use financial_crime_complian.Transport.Requests.{Request, Response, write_error, write_json, Reply}
use financial_crime_complian.Memory.{Repository}
use financial_crime_complian.Common.Text.{trim_space, is_empty}
use financial_crime_complian.Application.DueDiligence.{
  add_owner, is_invalid_owner, normalise_owner, add_document, update_profile, is_invalid_document,
  normalise_profile, normalise_document, is_invalid_profile,
}
use financial_crime_complian.Effects.{err, refuse_if_passed, Exec}
use financial_crime_complian.Transport.Respond.{respond, with_body}
use financial_crime_complian.Domain.DueDiligence.{BeneficialOwner, CddProfile, KycDocument}
use financial_crime_complian.Memory.Ports.{due_diligence_port}
use financial_crime_complian.Domain.Errors.{Error}
use financial_crime_complian.Domain.Audit.{AuditEvent}

module _ (env : Env) (by : Principal) (id : String) (r : Repository)
    (missing : get (trim_space id) r.customers ≡ none)
    (named : is_empty (trim_space by.subject) ≡ false) where
  answers :
      {A : Type 0} (f : Error → Response) (g : A → Response) (m : Exec Repository A)
      → m r ≡ (err Error.customer_not_found, r)
      → respond f g m r ≡ (f Error.customer_not_found, r)
  unfolding respond
  answers f g m h = rw h refl

  checks : (bad : Bool) → bad ≡ false → bad || is_empty (trim_space by.subject) ≡ false
  checks bad h = ground arith

  no_owner :
      (o : BeneficialOwner) (v : AuditEvent)
      → get o.customer_id r.customers ≡ none
      → Profiles.add_beneficial_owner o v r ≡ (err Error.customer_not_found, r)
  unfolding Profiles.add_beneficial_owner
  no_owner o v h = rw (h, Profiles.add_beneficial_owner)

  no_document :
      (d : KycDocument) (v : AuditEvent)
      → get d.customer_id r.customers ≡ none
      → Profiles.add_kyc_document d v r ≡ (err Error.customer_not_found, r)
  unfolding Profiles.add_kyc_document
  no_document d v h = rw (h, Profiles.add_kyc_document)

  no_profile :
      (p : CddProfile) (v : AuditEvent)
      → get p.customer_id r.customers ≡ none
      → Profiles.upsert_cdd_profile p v r ≡ (err Error.customer_not_found, r)
  unfolding Profiles.upsert_cdd_profile
  no_profile p v h = rw (h, Profiles.upsert_cdd_profile)

  add_owner_fails :
      (o : BeneficialOwner)
      → is_invalid_owner (normalise_owner env (record o { customer_id = id })) ≡ false
      → add_owner due_diligence_port env (record o { customer_id = id }) by.subject r
        ≡ (err Error.customer_not_found, r)
  unfolding add_owner normalise_owner
  add_owner_fails o valid = refuse_if_passed _ _ _ r (checks _ valid) ∙ no_owner _ _ missing

  add_document_fails :
      (d : KycDocument)
      → is_invalid_document (normalise_document (record d { customer_id = id })) ≡ false
      → add_document due_diligence_port env (record d { customer_id = id }) by.subject r
        ≡ (err Error.customer_not_found, r)
  unfolding add_document normalise_document
  add_document_fails d valid = refuse_if_passed _ _ _ r (checks _ valid) ∙ no_document _ _ missing

  update_profile_fails :
      (p : CddProfile)
      → is_invalid_profile (normalise_profile env (record p { customer_id = id })) ≡ false
      → update_profile due_diligence_port env (record p { customer_id = id }) by.subject r
        ≡ (err Error.customer_not_found, r)
  unfolding update_profile normalise_profile
  update_profile_fails p valid = refuse_if_passed _ _ _ r (checks _ valid) ∙ no_profile _ _ missing

  -- A customer that is not found is a 404 in one place and a 500 in another: for requests about a
  -- customer that is not stored, updateDueDiligence answers 404 and customer_not_found to one with a
  -- valid profile, while addBeneficialOwner answers 500 and internal_error to one with a valid owner,
  -- and addKYCDocument to one with a valid document; nothing is written.
  pub unknown_customer-answers :
      (with_profile with_owner with_document : Request) (p : CddProfile) (o : BeneficialOwner)
      (d : KycDocument)
      → with_profile.body.profile ≡ some p
      → with_owner.body.owner ≡ some o
      → with_document.body.document ≡ some d
      → is_invalid_profile (normalise_profile env (record p { customer_id = id })) ≡ false
      → is_invalid_owner (normalise_owner env (record o { customer_id = id })) ≡ false
      → is_invalid_document (normalise_document (record d { customer_id = id })) ≡ false
      → (DueDiligence.update_due_diligence due_diligence_port env by id with_profile r
          ≡ (write_error 404 "customer_not_found" "Customer was not found", r))
        × (DueDiligence.add_beneficial_owner due_diligence_port env by id with_owner r
            ≡ (write_error 500 "internal_error" "Data could not be loaded", r))
        × (DueDiligence.add_kyc_document due_diligence_port env by id with_document r
            ≡ (write_error 500 "internal_error" "Data could not be loaded", r))
  unfolding DueDiligence.update_due_diligence DueDiligence.add_beneficial_owner
      DueDiligence.add_kyc_document with_body DueDiligence.profile_failure
      DueDiligence.owner_failure DueDiligence.document_failure Customers.customer_failure
  unknown_customer-answers with_profile with_owner with_document p o d has_p has_o has_d valid_p
        valid_o valid_d =
      (
        rw (has_p, DueDiligence.update_due_diligence, with_body)
            (answers DueDiligence.profile_failure (λ x. write_json 200 (Reply.profile x))
              (update_profile due_diligence_port env (record p { customer_id = id }) by.subject)
              (update_profile_fails p valid_p)),
        rw (has_o, DueDiligence.add_beneficial_owner, with_body)
            (answers DueDiligence.owner_failure (λ x. write_json 201 (Reply.owner x))
              (add_owner due_diligence_port env (record o { customer_id = id }) by.subject)
              (add_owner_fails o valid_o)),
        rw (has_d, DueDiligence.add_kyc_document, with_body)
            (answers DueDiligence.document_failure (λ x. write_json 201 (Reply.document x))
              (add_document due_diligence_port env (record d { customer_id = id }) by.subject)
              (add_document_fails d valid_d)),
      )
