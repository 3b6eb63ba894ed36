-- ===== src/Tests/Histories.antt =====
-- Histories of the platform on concrete data.
use financial_crime_complian.Common.{◌⊎◌, true}
use financial_crime_complian.Platform.Atomic.{step-succeeds, succeeds}
use financial_crime_complian.Common.Int.{pos}
use financial_crime_complian.Domain.Errors.{Error}
use financial_crime_complian.Application.Cases as CaseService
use financial_crime_complian.Domain.Case.{CasePriority, CaseStatus}
use financial_crime_complian.Application.Onboarding as Onboarding
use financial_crime_complian.Memory.{new_repository, Repository}
use financial_crime_complian.Common.{◌≡◌, ◌≢◌, refl, [], ◌∷◌, some, none, String, arith, ap, false}
use financial_crime_complian.Common.Dict.{values, get, put}
use financial_crime_complian.Platform.Audit.{Extends}
use financial_crime_complian.Platform.{run, step, ingests}
use financial_crime_complian.Domain.Customer.{Customer, CustomerStatus}
use financial_crime_complian.Application.Onboarding.{submitted, onboard}
use financial_crime_complian.Tests.Fixtures.{
  onboard_env, onboarding, investigation, approval, retry_env, payment, event, payment_env,
}
use financial_crime_complian.Memory.Customers.{create_customer, review_customer, decided}
use financial_crime_complian.Platform.Audit.Trail.{run-Extends}
use financial_crime_complian.Effects.{refuse_if, ok, err}
use financial_crime_complian.Common.Text.{trim_space, to_upper}
use financial_crime_complian.Platform.Investigations.Invariant.{one_case_per_alert}
use financial_crime_complian.Application.Transactions.{
  ingest, normalise, to_transaction, IngestTransactionCommand, IngestTransactionResult, submit,
  is_invalid, alerts_of,
}
use financial_crime_complian.Domain.Monitoring.{Alert, AlertSeverity, AlertStatus, evaluate}
use financial_crime_complian.Application.Env.{upper_trim}
use financial_crime_complian.Platform.Investigations.Links.{IsLinked, run-IsLinked, FreshAlerts}
use financial_crime_complian.Memory.Transactions.{
  close_alert, create_transaction, store_transaction, close,
}
use financial_crime_complian.Domain.Case.{InvestigationCase, CaseStatus, CasePriority}
use financial_crime_complian.Platform.Customers.Approval.{IsSound, run-IsSound, decided_is_final}
use financial_crime_complian.Domain.Transaction.{SamePayload}
use financial_crime_complian.Memory.Ports.{transaction_port}
use financial_crime_complian.Memory.Cases.{resolve_case, create_case, store_resolution}
use financial_crime_complian.Platform.Ingestion.{replay_of, ingest_retry, ingest_conflict}
use financial_crime_complian.Common.Int.{to_nat, pos}
use financial_crime_complian.Platform.Investigations.Stranded.{close_alert-strands_case}
use financial_crime_complian.Application.Cases.{new_case}

run-Extends_example : Extends new_repository.events (run investigation new_repository).events
run-Extends_example = run-Extends investigation new_repository

abbrev approved : Customer
approved = record (submitted onboard_env onboarding) {
  status = CustomerStatus.active;
  reviewed_by = "checker";
  reviewed_at = some 20;
}

approval_stores : get "c1" (run approval new_repository).customers ≡ some approved
unfolding run step onboard Onboarding.review create_customer review_customer decided get put
    refuse_if submitted trim_space upper_trim to_upper
approval_stores = refl

active_is_decided : approved.status ≢ CustomerStatus.pending_approval
active_is_decided h = cc

run-IsSound_example : IsSound approved
run-IsSound_example = run-IsSound approval "c1" approved approval_stores

decided_is_final_example :
    get "c1" (run (ingests payment_env payment ∷ []) (run approval new_repository)).customers
    ≡ some approved
decided_is_final_example =
    decided_is_final (ingests payment_env payment ∷ []) (run approval new_repository) "c1" approved
      (tt, tt) approval_stores active_is_decided

abbrev after_approval : Repository
after_approval = run approval new_repository

abbrev first_answer : IngestTransactionResult
first_answer =
    let t = to_transaction payment_env (normalise payment_env payment) in
    record { transaction = t; alerts = alerts_of payment_env t 2 (evaluate t); replayed = false }

abbrev after_payment : Repository
after_payment = (ingest transaction_port payment_env payment after_approval).1

first_ingestion :
    ingest transaction_port payment_env payment after_approval ≡ (ok first_answer, after_payment)
unfolding ingest submit normalise run step onboard Onboarding.review create_customer review_customer
    decided get put refuse_if submitted trim_space upper_trim to_upper create_transaction
    store_transaction evaluate
first_ingestion = refl

ingest_retry_example :
    ingest transaction_port retry_env payment after_payment
    ≡ (ok (replay_of first_answer.transaction after_payment), after_payment)
ingest_retry_example =
    ingest_retry payment_env retry_env payment after_approval after_payment first_answer refl
      first_ingestion

abbrev other_payment : IngestTransactionCommand
other_payment = record payment { amount_minor = pos 5 }

other_payment_is_valid : is_invalid (normalise retry_env other_payment) ≡ false
unfolding normalise trim_space upper_trim to_upper
other_payment_is_valid = refl

same_key :
    (normalise retry_env other_payment).idempotency_key
    ≡ (normalise payment_env payment).idempotency_key
unfolding normalise
same_key = refl

other_amount :
    ¬ SamePayload
      (to_transaction payment_env (normalise payment_env payment))
      (to_transaction retry_env (normalise retry_env other_payment))
unfolding to_transaction normalise
other_amount h = absurd (ground (arith, ap to_nat h.amount_minor))

ingest_conflict_example :
    ingest transaction_port retry_env other_payment after_payment
    ≡ (err Error.idempotency_conflict, after_payment)
ingest_conflict_example =
    ingest_conflict payment_env retry_env payment other_payment after_approval after_payment
      first_answer first_ingestion other_payment_is_valid same_key other_amount

abbrev settled_case : InvestigationCase
settled_case = record {
  id = "k1";
  alert_id = "a1";
  customer_id = "c1";
  title = "Large payment";
  priority = CasePriority.high;
  status = CaseStatus.resolved;
  assigned_to = "";
  resolution = "No further action";
  created_by = "analyst";
  created_at = 40;
  updated_at = 50;
  resolved_by = "analyst";
  resolved_at = some 50;
}

investigation_stores : get "k1" (run investigation new_repository).cases ≡ some settled_case
unfolding ingest submit normalise run step onboard Onboarding.review create_customer review_customer
    decided get put refuse_if submitted trim_space upper_trim to_upper create_transaction
    store_transaction evaluate CaseService.create create_case CaseService.resolve resolve_case
    store_resolution new_case values
investigation_stores = refl

abbrev case_id : String
case_id = "k1"

one_case_per_alert_example : (case_id ≡ case_id) × (settled_case ≡ settled_case)
one_case_per_alert_example =
    one_case_per_alert investigation "k1" "k1" settled_case settled_case investigation_stores
      investigation_stores refl

fresh_identifiers : FreshAlerts investigation new_repository
unfolding run step onboard Onboarding.review create_customer review_customer decided get put
    refuse_if submitted trim_space upper_trim to_upper
fresh_identifiers = (tt, (tt, (λ n. refl, (tt, (tt, tt)))))

run-IsLinked_example : IsLinked settled_case (run investigation new_repository).alerts
run-IsLinked_example =
    run-IsLinked investigation "k1" settled_case fresh_identifiers investigation_stores

abbrev open_investigation : InvestigationCase
open_investigation = record settled_case { status = CaseStatus.open_case }

abbrev open_alert_item : Alert
open_alert_item = record {
  id = "a1";
  transaction_id = "t1";
  customer_id = "c1";
  rule_code = "large_transaction";
  rule_version = "1";
  severity = AlertSeverity.high;
  status = AlertStatus.open_alert;
  reason_code = "amount";
  description = "";
  created_at = 30;
  closed_at = none;
  closed_by = "";
  closure_reason = "";
}

abbrev under_investigation : Repository
under_investigation = record new_repository {
  alerts = ("a1", open_alert_item) ∷ [];
  cases = ("k1", open_investigation) ∷ [];
}

abbrev after_closure : Repository
after_closure = (close_alert "a1" "analyst" "duplicate" event under_investigation).1

close_alert-strands_case_example :
    resolve_case "k1" "done" "analyst" event event after_closure
    ≡ (err Error.alert_conflict, after_closure)
unfolding close_alert get
close_alert-strands_case_example =
    close_alert-strands_case "k1" "a1" "analyst" "duplicate" "analyst" "done" event event event
      under_investigation after_closure (close open_alert_item "analyst" "duplicate" event)
      open_investigation refl refl refl refl

step-succeeds_example :
    (step (ingests payment_env payment) new_repository ≡ new_repository)
    ⊎ (succeeds (ingests payment_env payment) new_repository ≡ true)
step-succeeds_example = step-succeeds (ingests payment_env payment) new_repository
