-- ===== src/Memory/DueDiligence.antt =====
-- memory/repository.go: customer due diligence.
use financial_crime_complian.Common.{String, Option, none, some, ◌==◌, select, if◌then◌else◌}
use financial_crime_complian.Common.Int.{pos}
use financial_crime_complian.Common.Dict.{get, put, get_list, push, values}
use financial_crime_complian.Domain.Errors.{Error}
use financial_crime_complian.Domain.Audit.{AuditEvent}
use financial_crime_complian.Domain.DueDiligence.{
  CddProfile, CddStatus, BeneficialOwner, KycDocument, DocumentStatus, DueDiligenceDetails,
  is_pending,
}
use financial_crime_complian.Effects.{Exec, ok, err}
use financial_crime_complian.Memory.{Repository}

-- The profile of a customer for whom none is stored.
abbrev pub default_profile : String → CddProfile
default_profile id = record {
  customer_id = id;
  source_of_wealth = "";
  business_purpose = "";
  expected_monthly_volume_minor = pos 0;
  currency = "";
  status = CddStatus.incomplete;
  next_review_at = none;
  updated_by = "";
  updated_at = 0;
}

abbrev pub or_default : String → Option CddProfile → CddProfile
or_default id none = default_profile id
or_default id (some profile) = profile

unfoldable pub get_due_diligence : String → Exec Repository DueDiligenceDetails
get_due_diligence id r = elim (get id r.customers) [
  | none ↦ (err Error.customer_not_found, r)
  | some _ ↦ (
    ok (record {
      profile = or_default id (get id r.cdd_profiles);
      beneficial_owners = get_list id r.owners;
      documents = select (λ d. d.customer_id == id) (values r.documents);
    }),
    r,
  )
]

unfoldable pub upsert_cdd_profile : CddProfile → AuditEvent → Exec Repository CddProfile
upsert_cdd_profile p event r = elim (get p.customer_id r.customers) [
  | none ↦ (err Error.customer_not_found, r)
  | some _ ↦ (
    ok p,
    record r {
      cdd_profiles = put p.customer_id p r.cdd_profiles;
      events = push p.customer_id event r.events;
    },
  )
]

unfoldable pub add_beneficial_owner : BeneficialOwner → AuditEvent → Exec Repository BeneficialOwner
add_beneficial_owner o event r = elim (get o.customer_id r.customers) [
  | none ↦ (err Error.customer_not_found, r)
  | some _ ↦ (
    ok o,
    record r { owners = push o.customer_id o r.owners; events = push o.customer_id event r.events },
  )
]

unfoldable pub add_kyc_document : KycDocument → AuditEvent → Exec Repository KycDocument
add_kyc_document d event r = elim (get d.customer_id r.customers) [
  | none ↦ (err Error.customer_not_found, r)
  | some _ ↦ (
    ok d,
    record r { documents = put d.id d r.documents; events = push d.customer_id event r.events },
  )
]

abbrev pub review : DocumentStatus → String → AuditEvent → KycDocument → KycDocument
review status actor event d = record d {
  status = status;
  verified_by = actor;
  verified_at = some event.occurred_at;
}

unfoldable pub review_kyc_document :
    String → DocumentStatus → String → AuditEvent → Exec Repository KycDocument
review_kyc_document id status actor event r = elim (get id r.documents) [
  | none ↦ (err Error.review_conflict, r)
  | some d ↦
      if is_pending d.status
      then (
        ok (review status actor event d),
        record r {
          documents = put id (review status actor event d) r.documents;
          events = push d.customer_id (record event { aggregate_id = d.customer_id }) r.events;
        },
      )
      else (err Error.review_conflict, r)
]
