-- ===== src/Domain/Customer.antt =====
-- internal/domain/customer.go: customers, their risk factors and assessments.
use financial_crime_complian.Common.{String, Bool, true, false, Option, List, ℕ, ◌==◌}
use financial_crime_complian.Domain.Audit.{Time}

pub data CustomerType : Type 0 where
  individual company : CustomerType
  other : String → CustomerType

pub data CountryRisk : Type 0 where
  low medium high : CountryRisk
  other : String → CountryRisk

pub data RiskRating : Type 0 where
  low medium high : RiskRating

pub data DueDiligence : Type 0 where
  standard enhanced blocked : DueDiligence

pub data CustomerStatus : Type 0 where
  pending_approval active rejected : CustomerStatus
  other : String → CustomerStatus

pub data ReviewDecision : Type 0 where
  approve reject : ReviewDecision
  other : String → ReviewDecision

abbrev pub rating_text : RiskRating → String
rating_text RiskRating.low = "low"
rating_text RiskRating.medium = "medium"
rating_text RiskRating.high = "high"

abbrev pub due_diligence_text : DueDiligence → String
due_diligence_text DueDiligence.standard = "standard"
due_diligence_text DueDiligence.enhanced = "enhanced"
due_diligence_text DueDiligence.blocked = "blocked_pending_review"

-- ==
abbrev pub status_eq : CustomerStatus → CustomerStatus → Bool
status_eq CustomerStatus.pending_approval CustomerStatus.pending_approval = true
status_eq CustomerStatus.active CustomerStatus.active = true
status_eq CustomerStatus.rejected CustomerStatus.rejected = true
status_eq (CustomerStatus.other s) (CustomerStatus.other t) = s == t
status_eq _ _ = false

pub record RiskFactors : Type 0 where
  pub country_risk : CountryRisk
  pub pep : Bool
  pub sanctions_potential_match : Bool
  pub high_risk_industry : Bool
  pub complex_ownership : Bool
  pub source_of_funds_verified : Bool

pub record RiskReason : Type 0 where
  pub code : String
  pub points : ℕ
  pub detail : String

pub record RiskAssessment : Type 0 where
  pub score : ℕ
  pub rating : RiskRating
  pub due_diligence : DueDiligence
  pub reasons : List RiskReason
  pub assessed_at : Time
  pub rule_version : String

pub record Customer : Type 0 where
  pub id : String
  pub external_ref : String
  pub type : CustomerType
  pub legal_name : String
  pub country_code : String
  pub risk_factors : RiskFactors
  pub risk_assessment : RiskAssessment
  pub status : CustomerStatus
  pub created_by : String
  pub reviewed_by : String
  pub reviewed_at : Option Time
  pub created_at : Time
