-- ===== src/Platform.antt =====
-- The services of internal/application over the in-memory repository, as one system. A history is a
-- list of the calls that write, in the order in which they take the lock of the repository, so it
-- stands for every interleaving of concurrent clients and workers. A call that reads before it
-- writes (a screening, a worker's round) is one write here, with whatever it may have gathered.
pub mod Write
pub mod Audit
pub mod Customers
pub mod Ingestion
pub mod Investigations
pub mod Atomic
use financial_crime_complian.Common.{ℕ, String, List, [], ◌∷◌, Bool, Option}
use financial_crime_complian.Domain.Audit.{AuditEvent, Time}
use financial_crime_complian.Domain.Customer.{ReviewDecision}
use financial_crime_complian.Domain.Case.{CasePriority}
use financial_crime_complian.Domain.DueDiligence.{
  CddProfile, BeneficialOwner, KycDocument, DocumentStatus,
}
use financial_crime_complian.Domain.Screening.{
  ScreeningMatch, ScreeningMatchStatus, ScreeningSchedule,
}
use financial_crime_complian.Domain.Notification.{Notification}
use financial_crime_complian.Application.Env.{Env}
use financial_crime_complian.Application.Onboarding as Onboarding
use financial_crime_complian.Application.Onboarding.{OnboardCustomerCommand}
use financial_crime_complian.Application.Transactions as Transactions
use financial_crime_complian.Application.Transactions.{IngestTransactionCommand}
use financial_crime_complian.Application.Cases as Cases
use financial_crime_complian.Application.DueDiligence as DueDiligence
use financial_crime_complian.Application.Screening as Screening
use financial_crime_complian.Application.Worker as Worker
use financial_crime_complian.Memory.{Repository}
use financial_crime_complian.Memory.Screening.{save_screening}
use financial_crime_complian.Memory.Schedules.{
  upsert_screening_schedule, claim_due_screening_schedules, complete_screening_schedule,
}
use financial_crime_complian.Memory.Ports.{
  customer_port, transaction_port, case_port, due_diligence_port, screening_port,
}

-- Each call of a service reads its own clock and draws its own identifiers.
pub data Call : Type 0 where
  onboards : Env → OnboardCustomerCommand → Call
  reviews : Env → String → ReviewDecision → String → String → Call
  ingests : Env → IngestTransactionCommand → Call
  closes_alert : Env → String → String → String → Call
  opens_case : Env → String → String → CasePriority → String → Call
  assigns_case : Env → String → String → String → Call
  comments_on_case : Env → String → String → String → Call
  resolves_case : Env → String → String → String → Call
  updates_profile : Env → CddProfile → String → Call
  adds_owner : Env → BeneficialOwner → String → Call
  adds_document : Env → KycDocument → String → Call
  reviews_document : Env → String → DocumentStatus → String → Call
  saves_screening : List ScreeningMatch → List Notification → List AuditEvent → Call
  disposes_match : Env → String → ScreeningMatchStatus → String → String → Call
  stores_schedule : ScreeningSchedule → AuditEvent → Call
  claims_schedules : Time → ℕ → String → Time → Call
  completes_schedule : String → String → Time → Time → String → Call
  reads_notification : Env → String → String → Call
  sets_preference : Env → (String → Option String) → String → String → Bool → Call

-- The state after a call, whether it succeeds or fails.
unfoldable pub step : Call → Repository → Repository
step (onboards env cmd) r = (Onboarding.onboard customer_port env cmd r).1
step (reviews env id decision actor reason) r =
    (Onboarding.review customer_port env id decision actor reason r).1
step (ingests env cmd) r = (Transactions.ingest transaction_port env cmd r).1
step (closes_alert env id actor reason) r =
    (Transactions.close_alert transaction_port env id actor reason r).1
step (opens_case env alert title priority actor) r =
    (Cases.create case_port env alert title priority actor r).1
step (assigns_case env id assignee actor) r = (Cases.assign case_port env id assignee actor r).1
step (comments_on_case env id body actor) r = (Cases.comment case_port env id body actor r).1
step (resolves_case env id resolution actor) r =
    (Cases.resolve case_port env id resolution actor r).1
step (updates_profile env p actor) r =
    (DueDiligence.update_profile due_diligence_port env p actor r).1
step (adds_owner env o actor) r = (DueDiligence.add_owner due_diligence_port env o actor r).1
step (adds_document env d actor) r = (DueDiligence.add_document due_diligence_port env d actor r).1
step (reviews_document env id status actor) r =
    (DueDiligence.review_document due_diligence_port env id status actor r).1
step (saves_screening matches notifications events) r =
    (save_screening [] matches notifications [] events r).1
step (disposes_match env id status reason actor) r =
    (Screening.disposition screening_port env id status reason actor r).1
step (stores_schedule schedule event) r = (upsert_screening_schedule schedule event r).1
step (claims_schedules now limit owner until) r =
    (claim_due_screening_schedules now limit owner until r).1
step (completes_schedule id owner ran_at next last_error) r =
    (complete_screening_schedule id owner ran_at next last_error r).1
step (reads_notification env id actor) r =
    (Worker.read_notification screening_port env id actor r).1
step (sets_preference env parse actor email enabled) r =
    (Worker.configure_notification_preference screening_port env parse actor email enabled r).1

unfoldable pub run : List Call → Repository → Repository
run [] r = r
run (c ∷ cs) r = run cs (step c r)
