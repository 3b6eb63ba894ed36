-- ===== src/Application/DueDiligence.antt =====
-- internal/application/due_diligence.go: CDD profiles, beneficial owners and KYC documents.
use Prim.Native.String.{len, ◌++◌}
use financial_crime_complian.Common.{String, List, [], ◌∷◌, Bool, true, false, not, ◌||◌, eqb}
use financial_crime_complian.Common.Int.{is_below, is_above}
use financial_crime_complian.Common.Text.{is_empty, trim_space}
use financial_crime_complian.Domain.Errors.{Error}
use financial_crime_complian.Domain.Audit.{AuditEvent, Value, str, int, flag, optional_instant}
use financial_crime_complian.Domain.DueDiligence.{
  CddProfile, CddStatus, BeneficialOwner, KycDocument, DocumentStatus, DueDiligenceDetails,
  cdd_status_text, document_status_text,
}
use financial_crime_complian.Effects.{Exec, refuse_if, raise}
use financial_crime_complian.Application.Env.{Env, upper_trim}

-- The interface DueDiligenceRepository.
pub record DueDiligenceRepository (S : Type 0) : Type 0 where
  pub get_due_diligence : String → Exec S DueDiligenceDetails
  pub upsert_cdd_profile : CddProfile → AuditEvent → Exec S CddProfile
  pub add_beneficial_owner : BeneficialOwner → AuditEvent → Exec S BeneficialOwner
  pub add_kyc_document : KycDocument → AuditEvent → Exec S KycDocument
  pub review_kyc_document : String → DocumentStatus → String → AuditEvent → Exec S KycDocument

unfoldable pub customer_event :
    Env → String → String → String → String → List (String × Value) → AuditEvent
customer_event env id aggregate_id kind actor payload = record {
  id = id;
  aggregate_type = "customer";
  aggregate_id = aggregate_id;
  event_type = kind;
  actor = actor;
  occurred_at = env.now;
  payload = payload;
}

abbrev pub is_cdd_status : CddStatus → Bool
is_cdd_status (CddStatus.other _) = false
is_cdd_status _ = true

-- The statuses that a review may give.
abbrev pub is_review_status : DocumentStatus → Bool
is_review_status DocumentStatus.verified = true
is_review_status DocumentStatus.rejected = true
is_review_status _ = false

unfoldable pub normalise_profile : Env → CddProfile → CddProfile
normalise_profile env p = record p {
  customer_id = trim_space p.customer_id;
  source_of_wealth = trim_space p.source_of_wealth;
  business_purpose = trim_space p.business_purpose;
  currency = upper_trim env p.currency;
}

abbrev pub is_invalid_profile : CddProfile → Bool
is_invalid_profile p =
    is_empty p.customer_id
    || is_empty p.source_of_wealth
    || is_empty p.business_purpose
    || is_below p.expected_monthly_volume_minor 0
    || not (eqb (len p.currency) 3)
    || not (is_cdd_status p.status)

unfoldable pub normalise_owner : Env → BeneficialOwner → BeneficialOwner
normalise_owner env o = record o {
  customer_id = trim_space o.customer_id;
  full_name = trim_space o.full_name;
  country_code = upper_trim env o.country_code;
}

abbrev pub is_invalid_owner : BeneficialOwner → Bool
is_invalid_owner o =
    is_empty o.customer_id
    || is_empty o.full_name
    || is_below o.ownership_percent 1
    || is_above o.ownership_percent 100
    || not (eqb (len o.country_code) 2)

unfoldable pub normalise_document : KycDocument → KycDocument
normalise_document d = record d {
  customer_id = trim_space d.customer_id;
  type = trim_space d.type;
  reference = trim_space d.reference;
}

abbrev pub is_invalid_document : KycDocument → Bool
is_invalid_document d = is_empty d.customer_id || is_empty d.type || is_empty d.reference

module _ {S : Type 0} (repo : DueDiligenceRepository S) where
  -- DueDiligenceService.Get
  unfoldable pub get : String → Exec S DueDiligenceDetails
  get customer_id = repo.get_due_diligence (trim_space customer_id)

module _ {S : Type 0} (repo : DueDiligenceRepository S) (env : Env) where
  -- DueDiligenceService.UpdateProfile
  unfoldable pub update_profile : CddProfile → String → Exec S CddProfile
  unfolding normalise_profile customer_event raise
  update_profile profile actor =
      let by = trim_space actor in
      let p = normalise_profile env profile in
      refuse_if (is_invalid_profile p || is_empty by) Error.invalid_due_diligence (
        repo.upsert_cdd_profile (record p { updated_by = by; updated_at = env.now })
          (customer_event env (env.new_id 0) p.customer_id "cdd.profile_updated" by (
            ("status", str (cdd_status_text p.status))
            ∷ ("next_review_at", optional_instant p.next_review_at)
            ∷ [])))

  -- DueDiligenceService.AddOwner
  unfoldable pub add_owner : BeneficialOwner → String → Exec S BeneficialOwner
  unfolding normalise_owner customer_event raise
  add_owner owner actor =
      let by = trim_space actor in
      let o = normalise_owner env owner in
      refuse_if (is_invalid_owner o || is_empty by) Error.invalid_due_diligence (
        repo.add_beneficial_owner
          (record o { id = env.new_id 0; created_by = by; created_at = env.now })
          (customer_event env (env.new_id 1) o.customer_id "cdd.beneficial_owner_added" by (
            ("owner_id", str (env.new_id 0))
            ∷ ("ownership_percent", int o.ownership_percent)
            ∷ ("pep", flag o.pep)
            ∷ [])))

  -- DueDiligenceService.AddDocument
  unfoldable pub add_document : KycDocument → String → Exec S KycDocument
  unfolding normalise_document customer_event raise
  add_document document actor =
      let by = trim_space actor in
      let d = normalise_document document in
      refuse_if (is_invalid_document d || is_empty by) Error.invalid_due_diligence (
        repo.add_kyc_document
          (record d {
            id = env.new_id 0;
            status = DocumentStatus.pending;
            created_by = by;
            created_at = env.now;
          })
          (customer_event env (env.new_id 1) d.customer_id "cdd.document_added" by
            (("document_id", str (env.new_id 0)) ∷ ("type", str d.type) ∷ [])))

  -- DueDiligenceService.ReviewDocument
  unfoldable pub review_document : String → DocumentStatus → String → Exec S KycDocument
  unfolding customer_event raise
  review_document document_id status actor =
      let id = trim_space document_id in
      let by = trim_space actor in
      refuse_if (is_empty id || is_empty by || not (is_review_status status))
        Error.invalid_due_diligence
        (repo.review_kyc_document id status by (
          customer_event env (env.new_id 0) "" ("cdd.document_" ++ document_status_text status) by
            (("document_id", str id) ∷ [])))
