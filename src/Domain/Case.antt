-- ===== src/Domain/Case.antt =====
-- internal/domain/case.go: investigation cases and their comments.
use financial_crime_complian.Common.{String, Bool, true, false, Option, List, ◌==◌}
use financial_crime_complian.Domain.Audit.{Time, AuditEvent}

pub data CasePriority : Type 0 where
  low medium high : CasePriority
  other : String → CasePriority

pub data CaseStatus : Type 0 where
  open_case in_progress resolved : CaseStatus
  other : String → CaseStatus

abbrev pub priority_text : CasePriority → String
priority_text CasePriority.low = "low"
priority_text CasePriority.medium = "medium"
priority_text CasePriority.high = "high"
priority_text (CasePriority.other s) = s

abbrev pub status_eq : CaseStatus → CaseStatus → Bool
status_eq CaseStatus.open_case CaseStatus.open_case = true
status_eq CaseStatus.in_progress CaseStatus.in_progress = true
status_eq CaseStatus.resolved CaseStatus.resolved = true
status_eq (CaseStatus.other s) (CaseStatus.other t) = s == t
status_eq _ _ = false

abbrev pub is_resolved : CaseStatus → Bool
is_resolved CaseStatus.resolved = true
is_resolved _ = false

pub record InvestigationCase : Type 0 where
  pub id : String
  pub alert_id : String
  pub customer_id : String
  pub title : String
  pub priority : CasePriority
  pub status : CaseStatus
  pub assigned_to : String
  pub resolution : String
  pub created_by : String
  pub created_at : Time
  pub updated_at : Time
  pub resolved_by : String
  pub resolved_at : Option Time

pub record CaseComment : Type 0 where
  pub id : String
  pub case_id : String
  pub author : String
  pub body : String
  pub created_at : Time

pub record CaseDetails : Type 0 where
  pub investigation : InvestigationCase
  pub comments : List CaseComment
  pub timeline : List AuditEvent
