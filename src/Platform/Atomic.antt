-- ===== src/Platform/Atomic.antt =====
-- Calls that fail, over the whole platform.
use financial_crime_complian.Common.{false}
use financial_crime_complian.Common.{◌≡◌, ◌⊎◌, inl, inr, refl, arith, true}
use financial_crime_complian.Platform.{
  Call, step, onboards, reviews, ingests, closes_alert, opens_case, assigns_case, comments_on_case,
  resolves_case, updates_profile, adds_owner, adds_document, reviews_document, saves_screening,
  disposes_match, stores_schedule, claims_schedules, completes_schedule, reads_notification,
  sets_preference,
}
use financial_crime_complian.Common.{String, List, [], Bool}
use financial_crime_complian.Domain.Audit.{AuditEvent}
use financial_crime_complian.Application.Onboarding as Onboarding
use financial_crime_complian.Application.Onboarding.{onboard}
use financial_crime_complian.Application.Transactions as Transactions
use financial_crime_complian.Application.Transactions.{ingest, submit}
use financial_crime_complian.Application.Cases as Cases
use financial_crime_complian.Application.DueDiligence as DueDiligence
use financial_crime_complian.Application.Screening as Screening
use financial_crime_complian.Application.Worker as Worker
use financial_crime_complian.Memory.{Repository}
use financial_crime_complian.Memory.Screening.{save_screening, disposition_screening_match}
use financial_crime_complian.Memory.Schedules.{
  upsert_screening_schedule, claim_due_screening_schedules, complete_screening_schedule,
}
use financial_crime_complian.Memory.Ports.{
  customer_port, transaction_port, case_port, due_diligence_port, screening_port,
}
use financial_crime_complian.Application.Worker.{succeeded, configure_notification_preference}
use financial_crime_complian.Effects.{refuse_if, Exec}
use financial_crime_complian.Memory.Transactions.{
  create_transaction, replay, store_transaction, close_alert,
}
use financial_crime_complian.Memory.Cases.{
  resolve_case, store_resolution, create_case, assign_case, add_case_comment,
}
use financial_crime_complian.Domain.Errors.{Error}
use financial_crime_complian.Domain.Transaction.{Transaction}
use financial_crime_complian.Application.DueDiligence.{
  update_profile, add_owner, add_document, review_document,
}
use financial_crime_complian.Domain.Monitoring.{Alert}
use financial_crime_complian.Application.Screening.{disposition}
use financial_crime_complian.Memory.Customers.{create_customer, review_customer}
use financial_crime_complian.Memory.DueDiligence.{
  upsert_cdd_profile, add_beneficial_owner, add_kyc_document, review_kyc_document,
}
use financial_crime_complian.Memory.Notifications.{
  read_notification, upsert_notification_preference,
}

-- Whether a call returns a value.
unfoldable pub succeeds : Call → Repository → Bool
succeeds (onboards env cmd) r = succeeded (Onboarding.onboard customer_port env cmd r).0
succeeds (reviews env id decision actor reason) r =
    succeeded (Onboarding.review customer_port env id decision actor reason r).0
succeeds (ingests env cmd) r = succeeded (Transactions.ingest transaction_port env cmd r).0
succeeds (closes_alert env id actor reason) r =
    succeeded (Transactions.close_alert transaction_port env id actor reason r).0
succeeds (opens_case env alert title priority actor) r =
    succeeded (Cases.create case_port env alert title priority actor r).0
succeeds (assigns_case env id assignee actor) r =
    succeeded (Cases.assign case_port env id assignee actor r).0
succeeds (comments_on_case env id body actor) r =
    succeeded (Cases.comment case_port env id body actor r).0
succeeds (resolves_case env id resolution actor) r =
    succeeded (Cases.resolve case_port env id resolution actor r).0
succeeds (updates_profile env p actor) r =
    succeeded (DueDiligence.update_profile due_diligence_port env p actor r).0
succeeds (adds_owner env o actor) r =
    succeeded (DueDiligence.add_owner due_diligence_port env o actor r).0
succeeds (adds_document env d actor) r =
    succeeded (DueDiligence.add_document due_diligence_port env d actor r).0
succeeds (reviews_document env id status actor) r =
    succeeded (DueDiligence.review_document due_diligence_port env id status actor r).0
succeeds (saves_screening matches notifications events) r =
    succeeded (save_screening [] matches notifications [] events r).0
succeeds (disposes_match env id status reason actor) r =
    succeeded (Screening.disposition screening_port env id status reason actor r).0
succeeds (stores_schedule schedule event) r =
    succeeded (upsert_screening_schedule schedule event r).0
succeeds (claims_schedules now limit owner until) r =
    succeeded (claim_due_screening_schedules now limit owner until r).0
succeeds (completes_schedule id owner ran_at next last_error) r =
    succeeded (complete_screening_schedule id owner ran_at next last_error r).0
succeeds (reads_notification env id actor) r =
    succeeded (Worker.read_notification screening_port env id actor r).0
succeeds (sets_preference env parse actor email enabled) r =
    succeeded
      (Worker.configure_notification_preference screening_port env parse actor email enabled r).0

-- A call that has succeeded, or that has left the state as it was.
abbrev pub IsAtomic : {A : Type 0} → Exec Repository A → Repository → Type 0
IsAtomic m r = ((m r).1 ≡ r) ⊎ (succeeded (m r).0 ≡ true)

checked :
    {A : Type 0} (bad : Bool) (e : Error) (m : Exec Repository A) (r : Repository)
    → IsAtomic m r
    → IsAtomic (refuse_if bad e m) r
unfolding refuse_if
checked true e m r h = inl refl
checked false e m r h = h

-- CreateTransaction and ResolveCase make all of their checks before they write.
create_transaction-IsAtomic :
    (t : Transaction) (v : AuditEvent) (alerts : List Alert) (vs : List AuditEvent) (r : Repository)
    → IsAtomic (create_transaction t v alerts vs) r
unfolding create_transaction replay store_transaction
create_transaction-IsAtomic t v alerts vs r = ground arith

resolve_case-IsAtomic :
    (id text actor : String) (v w : AuditEvent) (r : Repository)
    → IsAtomic (resolve_case id text actor v w) r
unfolding resolve_case store_resolution
resolve_case-IsAtomic id text actor v w r = ground arith

-- A call that fails writes nothing: every call of the platform succeeds, or leaves the state as it
-- was.
pub step-succeeds : (call : Call) (r : Repository) → (step call r ≡ r) ⊎ (succeeds call r ≡ true)
unfolding step succeeds onboard Onboarding.review ingest submit Transactions.close_alert
    Cases.create Cases.assign Cases.comment Cases.resolve update_profile add_owner add_document
    review_document disposition Worker.read_notification configure_notification_preference
    create_customer review_customer close_alert create_case assign_case add_case_comment
    upsert_cdd_profile add_beneficial_owner add_kyc_document review_kyc_document save_screening
    disposition_screening_match upsert_screening_schedule claim_due_screening_schedules
    complete_screening_schedule read_notification upsert_notification_preference
step-succeeds (onboards env cmd) r = checked _ _ _ r (inr refl)
step-succeeds (reviews env id d actor reason) r = checked _ _ _ r (ground arith)
step-succeeds (ingests env cmd) r = checked _ _ _ r (create_transaction-IsAtomic _ _ _ _ r)
step-succeeds (closes_alert env id actor reason) r = checked _ _ _ r (ground arith)
step-succeeds (opens_case env alert title priority actor) r = checked _ _ _ r (ground arith)
step-succeeds (assigns_case env id assignee actor) r = checked _ _ _ r (ground arith)
step-succeeds (comments_on_case env id body actor) r = checked _ _ _ r (ground arith)
step-succeeds (resolves_case env id text actor) r =
    checked _ _ _ r (resolve_case-IsAtomic _ _ _ _ _ r)
step-succeeds (updates_profile env p actor) r = checked _ _ _ r (ground arith)
step-succeeds (adds_owner env o actor) r = checked _ _ _ r (ground arith)
step-succeeds (adds_document env d actor) r = checked _ _ _ r (ground arith)
step-succeeds (reviews_document env id s actor) r = checked _ _ _ r (ground arith)
step-succeeds (saves_screening ms ns vs) r = inr refl
step-succeeds (disposes_match env id s reason actor) r = checked _ _ _ r (ground arith)
step-succeeds (stores_schedule s v) r = ground arith
step-succeeds (claims_schedules now limit by until) r = inr refl
step-succeeds (completes_schedule id by ran_at next e) r = ground arith
step-succeeds (reads_notification env id actor) r = checked _ _ _ r (ground arith)
step-succeeds (sets_preference env parse actor email enabled) r = checked _ _ _ r (inr refl)
