-- ===== src/Domain/Screening.antt =====
-- internal/domain/screening.go and ongoing_monitoring.go: screening runs, matches and schedules.
use financial_crime_complian.Common.{String, Bool, true, false, Option, List, ℕ}
use financial_crime_complian.Common.Int.{ℤ}
use financial_crime_complian.Domain.Audit.{Time}

pub data ScreeningSubjectType : Type 0 where
  customer beneficial_owner : ScreeningSubjectType

pub data ScreeningListType : Type 0 where
  sanctions pep adverse_media : ScreeningListType
  other : String → ScreeningListType

pub data ScreeningMatchStatus : Type 0 where
  potential confirmed false_positive : ScreeningMatchStatus
  other : String → ScreeningMatchStatus

abbrev pub subject_type_text : ScreeningSubjectType → String
subject_type_text ScreeningSubjectType.customer = "customer"
subject_type_text ScreeningSubjectType.beneficial_owner = "beneficial_owner"

abbrev pub list_type_text : ScreeningListType → String
list_type_text ScreeningListType.sanctions = "sanctions"
list_type_text ScreeningListType.pep = "pep"
list_type_text ScreeningListType.adverse_media = "adverse_media"
list_type_text (ScreeningListType.other s) = s

abbrev pub match_status_text : ScreeningMatchStatus → String
match_status_text ScreeningMatchStatus.potential = "potential"
match_status_text ScreeningMatchStatus.confirmed = "confirmed"
match_status_text ScreeningMatchStatus.false_positive = "false_positive"
match_status_text (ScreeningMatchStatus.other s) = s

abbrev pub is_potential : ScreeningMatchStatus → Bool
is_potential ScreeningMatchStatus.potential = true
is_potential _ = false

pub record ScreeningRun : Type 0 where
  pub id : String
  pub customer_id : String
  pub subject_type : ScreeningSubjectType
  pub subject_id : String
  pub query_name : String
  pub provider : String
  pub created_by : String
  pub created_at : Time

pub record ScreeningMatch : Type 0 where
  pub id : String
  pub run_id : String
  pub customer_id : String
  pub subject_type : ScreeningSubjectType
  pub subject_id : String
  pub query_name : String
  pub list_type : ScreeningListType
  pub matched_name : String
  pub score : ℤ
  pub reason : String
  pub status : ScreeningMatchStatus
  pub created_at : Time
  pub reviewed_by : String
  pub reviewed_at : Option Time
  pub disposition_reason : String

pub record ScreeningResult : Type 0 where
  pub runs : List ScreeningRun
  pub matches : List ScreeningMatch

pub record ScreeningSchedule : Type 0 where
  pub customer_id : String
  pub enabled : Bool
  pub interval_hours : ℕ
  pub next_run_at : Time
  pub last_run_at : Option Time
  pub last_error : String
  pub failure_count : ℕ
  pub lease_owner : String
  pub lease_until : Option Time
  pub updated_by : String
  pub updated_at : Time
