-- ===== src/Domain/DueDiligence.antt =====
-- internal/domain/due_diligence.go: CDD profiles, beneficial owners and KYC documents.
use financial_crime_complian.Common.{String, Bool, true, false, Option, List}
use financial_crime_complian.Common.Int.{ℤ}
use financial_crime_complian.Domain.Audit.{Time}

pub data CddStatus : Type 0 where
  incomplete in_review complete : CddStatus
  other : String → CddStatus

pub data DocumentStatus : Type 0 where
  pending verified rejected : DocumentStatus
  other : String → DocumentStatus

abbrev pub cdd_status_text : CddStatus → String
cdd_status_text CddStatus.incomplete = "incomplete"
cdd_status_text CddStatus.in_review = "in_review"
cdd_status_text CddStatus.complete = "complete"
cdd_status_text (CddStatus.other s) = s

abbrev pub document_status_text : DocumentStatus → String
document_status_text DocumentStatus.pending = "pending"
document_status_text DocumentStatus.verified = "verified"
document_status_text DocumentStatus.rejected = "rejected"
document_status_text (DocumentStatus.other s) = s

abbrev pub is_pending : DocumentStatus → Bool
is_pending DocumentStatus.pending = true
is_pending _ = false

pub record CddProfile : Type 0 where
  pub customer_id : String
  pub source_of_wealth : String
  pub business_purpose : String
  pub expected_monthly_volume_minor : ℤ
  pub currency : String
  pub status : CddStatus
  pub next_review_at : Option Time
  pub updated_by : String
  pub updated_at : Time

pub record BeneficialOwner : Type 0 where
  pub id : String
  pub customer_id : String
  pub full_name : String
  pub ownership_percent : ℤ
  pub country_code : String
  pub pep : Bool
  pub created_by : String
  pub created_at : Time

pub record KycDocument : Type 0 where
  pub id : String
  pub customer_id : String
  pub type : String
  pub reference : String
  pub status : DocumentStatus
  pub expires_at : Option Time
  pub created_by : String
  pub created_at : Time
  pub verified_by : String
  pub verified_at : Option Time

pub record DueDiligenceDetails : Type 0 where
  pub profile : CddProfile
  pub beneficial_owners : List BeneficialOwner
  pub documents : List KycDocument
