-- ===== src/Platform/Write.antt =====
-- Every call of a service is at most one write of memory/repository.go, or it is rejected and
-- leaves the state as it was.
use financial_crime_complian.Common.{◌≡◌, refl, ℕ, String, List, [], Bool, true, false, ◌≡◌}
use financial_crime_complian.Domain.Errors.{Error}
use financial_crime_complian.Domain.Audit.{AuditEvent, Time}
use financial_crime_complian.Domain.Customer.{ReviewDecision}
use financial_crime_complian.Domain.Case.{CasePriority, CaseComment}
use financial_crime_complian.Domain.DueDiligence.{
  CddProfile, BeneficialOwner, KycDocument, DocumentStatus,
}
use financial_crime_complian.Domain.Screening.{
  ScreeningMatch, ScreeningMatchStatus, ScreeningSchedule,
}
use financial_crime_complian.Domain.Notification.{Notification, NotificationPreference}
use financial_crime_complian.Effects.{Exec, refuse_if}
use financial_crime_complian.Application.Env.{Env}
use financial_crime_complian.Application.Onboarding as Onboarding
use financial_crime_complian.Application.Onboarding.{
  OnboardCustomerCommand, submitted, submitted_event, onboard,
}
use financial_crime_complian.Application.Transactions as Transactions
use financial_crime_complian.Application.Transactions.{
  IngestTransactionCommand, submit, ingest, normalise,
}
use financial_crime_complian.Application.Cases as Cases
use financial_crime_complian.Application.Cases.{new_case}
use financial_crime_complian.Application.DueDiligence.{
  update_profile, add_owner, add_document, review_document,
}
use financial_crime_complian.Application.Screening.{disposition}
use financial_crime_complian.Application.Worker as Worker
use financial_crime_complian.Application.Worker.{configure_notification_preference}
use financial_crime_complian.Memory.{Repository}
use financial_crime_complian.Memory.Customers.{create_customer, review_customer}
use financial_crime_complian.Memory.Transactions.{close_alert}
use financial_crime_complian.Memory.Cases.{create_case, assign_case, add_case_comment, resolve_case}
use financial_crime_complian.Memory.DueDiligence.{
  upsert_cdd_profile, add_beneficial_owner, add_kyc_document, review_kyc_document,
}
use financial_crime_complian.Memory.Screening.{save_screening, disposition_screening_match}
use financial_crime_complian.Memory.Schedules.{
  upsert_screening_schedule, claim_due_screening_schedules, complete_screening_schedule,
}
use financial_crime_complian.Memory.Notifications.{
  read_notification, upsert_notification_preference,
}
use financial_crime_complian.Memory.Ports.{transaction_port}
use financial_crime_complian.Platform.{
  Call, step, onboards, reviews, ingests, closes_alert, opens_case, assigns_case, comments_on_case,
  resolves_case, updates_profile, adds_owner, adds_document, reviews_document, saves_screening,
  disposes_match, stores_schedule, claims_schedules, completes_schedule, reads_notification,
  sets_preference,
}

pub data Write (call : Call) (r : Repository) : Repository → Type 0 where
  rejected : Write call r r
  customer :
      (env : Env) (cmd : OnboardCustomerCommand)
      → call ≡ onboards env cmd
      → Write call r
          (create_customer (submitted env cmd) (submitted_event env (submitted env cmd)) r).1
  review :
      (id : String) (d : ReviewDecision) (actor : String) (v : AuditEvent)
      → Write call r (review_customer id d actor v r).1
  transaction :
      (env : Env) (cmd : IngestTransactionCommand)
      → call ≡ ingests env cmd
      → Write call r (submit transaction_port env (normalise env cmd) r).1
  alert_closure :
      (id actor reason : String) (v : AuditEvent) → Write call r (close_alert id actor reason v r).1
  new_investigation :
      (env : Env) (alert title : String) (p : CasePriority) (actor : String) (v : AuditEvent)
      → Write call r (create_case (new_case env alert title p actor) v r).1
  assignment : (id to : String) (v : AuditEvent) → Write call r (assign_case id to v r).1
  comment : (c : CaseComment) (v : AuditEvent) → Write call r (add_case_comment c v r).1
  resolution :
      (id text actor : String) (v w : AuditEvent)
      → Write call r (resolve_case id text actor v w r).1
  profile : (p : CddProfile) (v : AuditEvent) → Write call r (upsert_cdd_profile p v r).1
  owner : (o : BeneficialOwner) (v : AuditEvent) → Write call r (add_beneficial_owner o v r).1
  document : (d : KycDocument) (v : AuditEvent) → Write call r (add_kyc_document d v r).1
  document_review :
      (id : String) (s : DocumentStatus) (actor : String) (v : AuditEvent)
      → Write call r (review_kyc_document id s actor v r).1
  screening :
      (ms : List ScreeningMatch) (ns : List Notification) (vs : List AuditEvent)
      → Write call r (save_screening [] ms ns [] vs r).1
  disposal :
      (id : String) (s : ScreeningMatchStatus) (reason actor : String) (v : AuditEvent)
      → Write call r (disposition_screening_match id s reason actor v r).1
  schedule :
      (s : ScreeningSchedule) (v : AuditEvent) → Write call r (upsert_screening_schedule s v r).1
  claim :
      (now : Time) (limit : ℕ) (owner : String) (until : Time)
      → Write call r (claim_due_screening_schedules now limit owner until r).1
  completion :
      (id owner : String) (ran_at next : Time) (e : String)
      → Write call r (complete_screening_schedule id owner ran_at next e r).1
  reading : (id actor : String) (at : Time) → Write call r (read_notification id actor at r).1
  preference : (p : NotificationPreference) → Write call r (upsert_notification_preference p r).1

-- A service checks its arguments before it calls the repository.
checked :
    {call : Call} {A : Type 0} (bad : Bool) (e : Error) (m : Exec Repository A) (r : Repository)
    → Write call r (m r).1
    → Write call r (refuse_if bad e m r).1
unfolding refuse_if
checked true e m r w = rejected
checked false e m r w = w

pub step-Write : (call : Call) (r : Repository) → Write call r (step call r)
unfolding step onboard Onboarding.review ingest Transactions.close_alert Cases.create Cases.assign
    Cases.comment Cases.resolve update_profile add_owner add_document review_document disposition
    Worker.read_notification configure_notification_preference create_customer
step-Write (onboards env cmd) r = checked _ _ _ r (customer env cmd refl)
step-Write (reviews env id d actor reason) r = checked _ _ _ r (review _ d _ _)
step-Write (ingests env cmd) r = checked _ _ _ r (transaction env cmd refl)
step-Write (closes_alert env id actor reason) r = checked _ _ _ r (alert_closure _ _ _ _)
step-Write (opens_case env alert title priority actor) r =
    checked _ _ _ r (new_investigation env _ _ _ _ _)
step-Write (assigns_case env id assignee actor) r = checked _ _ _ r (assignment _ _ _)
step-Write (comments_on_case env id body actor) r = checked _ _ _ r (comment _ _)
step-Write (resolves_case env id text actor) r = checked _ _ _ r (resolution _ _ _ _ _)
step-Write (updates_profile env p actor) r = checked _ _ _ r (profile _ _)
step-Write (adds_owner env o actor) r = checked _ _ _ r (owner _ _)
step-Write (adds_document env d actor) r = checked _ _ _ r (document _ _)
step-Write (reviews_document env id s actor) r = checked _ _ _ r (document_review _ _ _ _)
step-Write (saves_screening ms ns vs) r = screening ms ns vs
step-Write (disposes_match env id s reason actor) r = checked _ _ _ r (disposal _ _ _ _ _)
step-Write (stores_schedule s v) r = schedule s v
step-Write (claims_schedules now limit by until) r = claim now limit by until
step-Write (completes_schedule id by ran_at next e) r = completion id by ran_at next e
step-Write (reads_notification env id actor) r = checked _ _ _ r (reading _ _ _)
step-Write (sets_preference env parse actor email enabled) r = checked _ _ _ r (preference _)
