-- ===== src/Memory.antt =====
-- internal/infrastructure/memory/repository.go: the in-memory repository. Each method holds the
-- lock of the repository from its first read to its return, so a method is one atomic step of the
-- state, and concurrent calls are a sequence of such steps.
pub mod Customers
pub mod Transactions
pub mod Idempotency
pub mod Cases
pub mod DueDiligence
pub mod Screening
pub mod Schedules
pub mod Leases
pub mod Notifications
pub mod Pages
pub mod Order
pub mod Paging
pub mod Walk
pub mod Ports
use financial_crime_complian.Common.{String, List, []}
use financial_crime_complian.Common.Dict.{Dict}
use financial_crime_complian.Domain.Audit.{AuditEvent}
use financial_crime_complian.Domain.Customer.{Customer}
use financial_crime_complian.Domain.Transaction.{Transaction}
use financial_crime_complian.Domain.Monitoring.{Alert}
use financial_crime_complian.Domain.Case.{InvestigationCase, CaseComment}
use financial_crime_complian.Domain.DueDiligence.{CddProfile, BeneficialOwner, KycDocument}
use financial_crime_complian.Domain.Screening.{ScreeningMatch, ScreeningSchedule}
use financial_crime_complian.Domain.Notification.{Notification, NotificationPreference}

pub record Repository : Type 0 where
  pub customers : Dict Customer
  pub transactions : Dict Transaction
  pub alerts : Dict Alert
  pub idempotency : Dict String
  pub events : Dict (List AuditEvent)
  pub cases : Dict InvestigationCase
  pub case_comments : Dict (List CaseComment)
  pub cdd_profiles : Dict CddProfile
  pub owners : Dict (List BeneficialOwner)
  pub documents : Dict KycDocument
  pub screening_matches : Dict ScreeningMatch
  pub screening_schedules : Dict ScreeningSchedule
  pub notifications : Dict Notification
  pub notification_preferences : Dict NotificationPreference

-- NewRepository
abbrev pub new_repository : Repository
new_repository = record {
  customers = [];
  transactions = [];
  alerts = [];
  idempotency = [];
  events = [];
  cases = [];
  case_comments = [];
  cdd_profiles = [];
  owners = [];
  documents = [];
  screening_matches = [];
  screening_schedules = [];
  notifications = [];
  notification_preferences = [];
}
