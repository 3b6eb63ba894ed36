-- ===== src/Platform/Customers/Writes.antt =====
-- What each write of memory/repository.go does to the customers.
use financial_crime_complian.Platform.Customers.{same, changed, submission, decision}
use financial_crime_complian.Common.{
  String, List, [], ◌∷◌, ◌≡◌, ◌≢◌, refl, ◌∙◌, true, false, arith, ◌==◌, eq_iff, some, inl, inr,
  Option-cases, Bool-cases, ap,
}
use mathlib.Core.Option.{some-ne-none}
use financial_crime_complian.Common.Dict.{get}
use financial_crime_complian.Domain.Audit.{AuditEvent}
use financial_crime_complian.Domain.Customer.{Customer, CustomerStatus, ReviewDecision, status_eq}
use financial_crime_complian.Domain.Monitoring.{Alert}
use financial_crime_complian.Domain.Transaction.{Transaction}
use financial_crime_complian.Application.Onboarding.{submitted}
use financial_crime_complian.Memory.Customers.{create_customer, review_customer}
use financial_crime_complian.Memory.{Repository}
use financial_crime_complian.Memory.Notifications.{
  read_notification, upsert_notification_preference,
}
use financial_crime_complian.Platform.{Call}
use financial_crime_complian.Platform.Write.{Write}
use financial_crime_complian.Memory.Transactions.{
  create_transaction, store_alerts, create_transaction_states, store_transaction, close_alert,
}
use financial_crime_complian.Application.Transactions.{submit}
use financial_crime_complian.Memory.Cases.{create_case, assign_case, add_case_comment, resolve_case}
use financial_crime_complian.Memory.DueDiligence.{
  upsert_cdd_profile, add_beneficial_owner, add_kyc_document, review_kyc_document,
}
use financial_crime_complian.Memory.Screening.{disposition_screening_match, save_screening}
use financial_crime_complian.Memory.Schedules.{
  upsert_screening_schedule, claim_due_screening_schedules, complete_screening_schedule,
}
use financial_crime_complian.Platform.Customers.{CustomerWrite, changed, same, submission, decision}

status_eq_pending :
    (s : CustomerStatus)
    → status_eq s CustomerStatus.pending_approval ≡ true
    → s ≡ CustomerStatus.pending_approval
status_eq_pending CustomerStatus.pending_approval h = refl
status_eq_pending _ h = cc

differs : (a b : String) → (a == b) ≡ false → a ≢ b
differs a b h = ground (arith, eq_iff a b)

abbrev decide : CustomerStatus → String → AuditEvent → Customer → Customer
decide status actor v old = record old {
  status = status;
  reviewed_by = actor;
  reviewed_at = some v.occurred_at;
}

module _ {call : Call} (id : String) (actor : String) (v : AuditEvent) (r : Repository) where
  -- The checks of a review have passed.
  accepted-CustomerWrite :
      (d : ReviewDecision) (old : Customer)
      → get id r.customers ≡ some old
      → (old.created_by == actor) ≡ false
      → status_eq old.status CustomerStatus.pending_approval ≡ true
      → CustomerWrite call r.customers (review_customer id d actor v r).1.customers
  unfolding review_customer
  accepted-CustomerWrite ReviewDecision.approve old h e f =
      changed id (decide CustomerStatus.active actor v old) (rw (h, review_customer, e, f)) (
        decision old _ h (record {
          was_pending = status_eq_pending old.status f;
          is_decided = inl refl;
          other_maker = differs old.created_by actor e;
          is_dated = some-ne-none v.occurred_at;
        }))
  accepted-CustomerWrite ReviewDecision.reject old h e f =
      changed id (decide CustomerStatus.rejected actor v old) (rw (h, review_customer, e, f)) (
        decision old _ h (record {
          was_pending = status_eq_pending old.status f;
          is_decided = inr refl;
          other_maker = differs old.created_by actor e;
          is_dated = some-ne-none v.occurred_at;
        }))
  accepted-CustomerWrite (ReviewDecision.other _) old h e f = same (rw (h, review_customer, e, f))

  review_customer-CustomerWrite :
      (d : ReviewDecision)
      → CustomerWrite call r.customers (review_customer id d actor v r).1.customers
  unfolding review_customer
  review_customer-CustomerWrite d = elim (Option-cases (get id r.customers)) [
    | inl h ↦ same (rw (h, review_customer))
    | inr (old, h) ↦ elim (Bool-cases (old.created_by == actor)) [
      | inl e ↦ same (rw (h, review_customer, e))
      | inr e ↦ elim (Bool-cases (status_eq old.status CustomerStatus.pending_approval)) [
        | inr f ↦ same (rw (h, review_customer, e, f))
        | inl f ↦ accepted-CustomerWrite d old h e f
      ]
    ]
  ]

store_alerts-customers :
    (alerts : List Alert) (vs : List AuditEvent) (r : Repository)
    → (store_alerts alerts vs r).customers ≡ r.customers
unfolding store_alerts
store_alerts-customers [] vs r = refl
store_alerts-customers (a ∷ alerts) [] r = refl
store_alerts-customers (a ∷ alerts) (v ∷ vs) r = store_alerts-customers alerts vs _

store_transaction-customers :
    (t : Transaction) (v : AuditEvent) (alerts : List Alert) (vs : List AuditEvent) (r : Repository)
    → (store_transaction t v alerts vs r).1.customers ≡ r.customers
unfolding store_transaction
store_transaction-customers t v alerts vs r = store_alerts-customers alerts vs _

create_transaction-customers :
    (t : Transaction) (v : AuditEvent) (alerts : List Alert) (vs : List AuditEvent) (r : Repository)
    → (create_transaction t v alerts vs r).1.customers ≡ r.customers
create_transaction-customers t v alerts vs r = elim (create_transaction_states t v alerts vs r) [
  | inl e ↦ ap (λ s. s.customers) e
  | inr e ↦ ap (λ s. s.customers) e ∙ store_transaction-customers t v alerts vs r
]

-- Every write of the platform stores a new submission, a decision, or no customer at all.
pub Write-CustomerWrite :
    {call : Call} {r s : Repository} → Write call r s → CustomerWrite call r.customers s.customers
unfolding create_customer submit close_alert create_case assign_case add_case_comment resolve_case
    upsert_cdd_profile add_beneficial_owner add_kyc_document review_kyc_document save_screening
    disposition_screening_match upsert_screening_schedule claim_due_screening_schedules
    complete_screening_schedule read_notification upsert_notification_preference submitted
Write-CustomerWrite (Write.customer env cmd e) = changed _ _ refl (submission env cmd e refl)
Write-CustomerWrite {r} (Write.review id d actor v) = review_customer-CustomerWrite id actor v r d
Write-CustomerWrite {r} (Write.transaction env cmd _) =
    same (create_transaction-customers _ _ _ _ r)
Write-CustomerWrite Write.rejected = same refl
Write-CustomerWrite _ = same (ground arith)
