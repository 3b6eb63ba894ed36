-- ===== src/Tests/Missing.antt =====
-- Due diligence of a customer that is not stored, on concrete data.
use financial_crime_complian.Common.Dict.{get}
use financial_crime_complian.Common.{[], ◌≡◌, none, false, some, refl}
use financial_crime_complian.Transport.Missing.{unknown_customer-answers}
use financial_crime_complian.Memory.Ports.{due_diligence_port}
use financial_crime_complian.Transport.Handlers.DueDiligence
use financial_crime_complian.Domain.DueDiligence.{
  KycDocument, BeneficialOwner, CddProfile, DocumentStatus, CddStatus,
}
use financial_crime_complian.Transport.Requests.{Request, Body, Method, write_error}
use financial_crime_complian.Application.DueDiligence.{
  normalise_owner, normalise_document, normalise_profile, is_invalid_owner, is_invalid_document,
  is_invalid_profile,
}
use financial_crime_complian.Common.Text.{trim_space, is_empty, to_upper}
use financial_crime_complian.Tests.Fixtures.{review_env}
use financial_crime_complian.Tests.Transport.{request, root, empty_body}
use financial_crime_complian.Memory.{new_repository}
use financial_crime_complian.Common.Int.{pos}
use financial_crime_complian.Application.Env.{upper_trim}

abbrev owner : BeneficialOwner
owner = record {
  id = "";
  customer_id = "";
  full_name = "Ada";
  ownership_percent = pos 40;
  country_code = "de";
  pep = false;
  created_by = "";
  created_at = 0;
}

abbrev document : KycDocument
document = record {
  id = "";
  customer_id = "";
  type = "passport";
  reference = "P1";
  status = DocumentStatus.pending;
  expires_at = none;
  created_by = "";
  created_at = 0;
  verified_by = "";
  verified_at = none;
}

abbrev profile : CddProfile
profile = record {
  customer_id = "";
  source_of_wealth = "salary";
  business_purpose = "trade";
  expected_monthly_volume_minor = pos 100;
  currency = "eur";
  status = CddStatus.in_review;
  next_review_at = none;
  updated_by = "";
  updated_at = 0;
}

abbrev about_nobody : Body → Request
about_nobody body = request Method.post [] "" body

abbrev profile_request : Request
profile_request = about_nobody (record empty_body { profile = some profile })

abbrev owner_request : Request
owner_request = about_nobody (record empty_body { owner = some owner })

abbrev document_request : Request
document_request = about_nobody (record empty_body { document = some document })

are_valid :
    (is_invalid_owner (normalise_owner review_env (record owner { customer_id = "c9" })) ≡ false)
    × (is_invalid_document (normalise_document (record document { customer_id = "c9" })) ≡ false)
    × (is_invalid_profile (normalise_profile review_env (record profile { customer_id = "c9" }))
        ≡ false)
unfolding normalise_owner normalise_document normalise_profile trim_space upper_trim to_upper
are_valid = (refl, refl, refl)

is_missing : get (trim_space "c9") new_repository.customers ≡ none
unfolding get
is_missing = refl

is_named : is_empty (trim_space root.subject) ≡ false
unfolding trim_space
is_named = refl

unknown_customer-answers_example :
    (DueDiligence.update_due_diligence due_diligence_port review_env root "c9" profile_request
        new_repository
      ≡ (write_error 404 "customer_not_found" "Customer was not found", new_repository))
    × (DueDiligence.add_beneficial_owner due_diligence_port review_env root "c9" owner_request
          new_repository
        ≡ (write_error 500 "internal_error" "Data could not be loaded", new_repository))
    × (DueDiligence.add_kyc_document due_diligence_port review_env root "c9" document_request
          new_repository
        ≡ (write_error 500 "internal_error" "Data could not be loaded", new_repository))
unknown_customer-answers_example =
    unknown_customer-answers review_env root "c9" new_repository is_missing is_named profile_request
      owner_request document_request profile owner document refl refl refl are_valid.2 are_valid.0
      are_valid.1
