-- ===== src/Platform/Audit/Writes.antt =====
-- What each write of memory/repository.go does to the audit trail.
use financial_crime_complian.Common.{String, List, [], ◌∷◌, ◌≡◌, arith, ◌⊎◌, inl, inr, Option-cases}
use financial_crime_complian.Common.Dict.{Dict, push, put, get}
use financial_crime_complian.Domain.Audit.{AuditEvent, Time}
use financial_crime_complian.Memory.{Repository}
use financial_crime_complian.Memory.Transactions.{
  store_alerts, create_transaction, store_transaction, create_transaction_states,
}
use financial_crime_complian.Memory.Cases.{resolve_case}
use financial_crime_complian.Memory.Schedules.{
  complete_screening_schedule, claim_due_screening_schedules,
}
use financial_crime_complian.Memory.Screening.{push_events, save_screening}
use financial_crime_complian.Domain.Monitoring.{Alert}
use financial_crime_complian.Platform.{Call}
use financial_crime_complian.Application.Transactions.{submit}
use financial_crime_complian.Memory.Notifications.{
  read_notification, upsert_notification_preference,
}
use financial_crime_complian.Platform.Write.{Write}
use financial_crime_complian.Domain.Transaction.{Transaction}
use financial_crime_complian.Platform.Audit.{
  Extends-refl, Extends, Extends-trans, Extends-push, OneMore-Extends,
}
use financial_crime_complian.Platform.Audit.Events.{
  review_customer-OneMore, close_alert-OneMore, create_case-OneMore, assign_case-OneMore,
  upsert_cdd_profile-OneMore, add_beneficial_owner-OneMore, add_kyc_document-OneMore,
  upsert_screening_schedule-OneMore, create_customer-OneMore, add_case_comment-Grows,
  review_kyc_document-Grows, disposition_screening_match-Grows, Grows,
}

push_twice-Extends :
    (d e : Dict (List AuditEvent)) (k j : String) (v w : AuditEvent)
    → (e ≡ d) ⊎ (e ≡ push j w (push k v d))
    → Extends d e
push_twice-Extends d e k j v w (inl p) = rw p (Extends-refl d)
push_twice-Extends d e k j v w (inr p) =
    rw p (Extends-trans d _ _ (Extends-push k v d) (Extends-push j w (push k v d)))

resolve_case-Grows :
    (id text actor : String) (v w : AuditEvent) (r : Repository)
    → Grows r (resolve_case id text actor v w r).1
unfolding resolve_case
resolve_case-Grows id text actor v w r = elim (Option-cases (get id r.cases)) [
  | inl e ↦ rw (e, resolve_case) (Extends-refl _)
  | inr (x, e) ↦ elim (Option-cases (get x.alert_id r.alerts)) [
    | inl f ↦
        push_twice-Extends r.events _ id id v w
          (rw (e, resolve_case, f, resolve_case) (ground arith))
    | inr (a, f) ↦
        push_twice-Extends r.events _ id a.id v (record w { aggregate_id = a.id })
          (rw (e, resolve_case, f, resolve_case) (ground arith))
  ]
]

store_alerts-Grows :
    (alerts : List Alert) (vs : List AuditEvent) (r : Repository)
    → Grows r (store_alerts alerts vs r)
unfolding store_alerts
store_alerts-Grows [] vs r = Extends-refl r.events
store_alerts-Grows (a ∷ alerts) [] r = Extends-refl r.events
store_alerts-Grows (a ∷ alerts) (v ∷ vs) r =
    Extends-trans r.events (push a.id v r.events) _ (Extends-push a.id v r.events) (
      store_alerts-Grows alerts vs
        (record r { alerts = put a.id a r.alerts; events = push a.id v r.events }))

push_events-Extends :
    (vs : List AuditEvent) (d : Dict (List AuditEvent)) → Extends d (push_events vs d)
unfolding push_events
push_events-Extends [] d = Extends-refl d
push_events-Extends (v ∷ vs) d =
    Extends-trans d (push v.aggregate_id v d) _ (Extends-push v.aggregate_id v d)
      (push_events-Extends vs (push v.aggregate_id v d))

completion-events :
    (r : Repository) (id by : String) (ran_at next : Time) (e : String)
    → (complete_screening_schedule id by ran_at next e r).1.events ≡ r.events
unfolding complete_screening_schedule
completion-events r id by ran_at next e = ground arith

reading-events :
    (r : Repository) (id actor : String) (at : Time)
    → (read_notification id actor at r).1.events ≡ r.events
unfolding read_notification
reading-events r id actor at = ground arith

same_events : (d e : Dict (List AuditEvent)) → e ≡ d → Extends d e
same_events d e p = rw p (Extends-refl d)

store_transaction-Grows :
    (t : Transaction) (v : AuditEvent) (alerts : List Alert) (vs : List AuditEvent) (r : Repository)
    → Grows r (store_transaction t v alerts vs r).1
unfolding store_transaction
store_transaction-Grows t v alerts vs r =
    Extends-trans r.events (push t.id v r.events) _ (Extends-push t.id v r.events) (
      store_alerts-Grows alerts vs (record r {
        transactions = put t.id t r.transactions;
        idempotency = put t.idempotency_key t.id r.idempotency;
        events = push t.id v r.events;
      }))

create_transaction-Grows :
    (t : Transaction) (v : AuditEvent) (alerts : List Alert) (vs : List AuditEvent) (r : Repository)
    → Grows r (create_transaction t v alerts vs r).1
create_transaction-Grows t v alerts vs r = elim (create_transaction_states t v alerts vs r) [
  | inl e ↦ rw e (Extends-refl r.events)
  | inr e ↦ rw e (store_transaction-Grows t v alerts vs r)
]

pub Write-Grows : {call : Call} {r s : Repository} → Write call r s → Grows r s
Write-Grows {r} Write.rejected = Extends-refl r.events
Write-Grows {r} (Write.customer env cmd _) =
    OneMore-Extends r.events _ _ _ (create_customer-OneMore r _ _)
Write-Grows {r} (Write.review id d actor v) =
    OneMore-Extends r.events _ _ _ (review_customer-OneMore r id d actor v)
Write-Grows {r} (Write.transaction env cmd _) = unfold submit in create_transaction-Grows _ _ _ _ r
Write-Grows {r} (Write.alert_closure id actor reason v) =
    OneMore-Extends r.events _ _ _ (close_alert-OneMore r id actor reason v)
Write-Grows {r} (Write.new_investigation env alert title p actor v) =
    OneMore-Extends r.events _ _ _ (create_case-OneMore r _ v)
Write-Grows {r} (Write.assignment id to v) =
    OneMore-Extends r.events _ _ _ (assign_case-OneMore r id to v)
Write-Grows {r} (Write.comment c v) = add_case_comment-Grows r c v
Write-Grows {r} (Write.resolution id text actor v w) = resolve_case-Grows id text actor v w r
Write-Grows {r} (Write.profile p v) =
    OneMore-Extends r.events _ _ _ (upsert_cdd_profile-OneMore r p v)
Write-Grows {r} (Write.owner o v) =
    OneMore-Extends r.events _ _ _ (add_beneficial_owner-OneMore r o v)
Write-Grows {r} (Write.document d v) =
    OneMore-Extends r.events _ _ _ (add_kyc_document-OneMore r d v)
Write-Grows {r} (Write.document_review id s actor v) = review_kyc_document-Grows r id s actor v
Write-Grows {r} (Write.screening ms ns vs) =
    unfold save_screening in push_events-Extends vs r.events
Write-Grows {r} (Write.disposal id s reason actor v) =
    disposition_screening_match-Grows r id s reason actor v
Write-Grows {r} (Write.schedule s v) =
    OneMore-Extends r.events _ _ _ (upsert_screening_schedule-OneMore r s v)
Write-Grows {r} (Write.claim now limit by until) =
    unfold claim_due_screening_schedules in Extends-refl r.events
Write-Grows {r} (Write.completion id by ran_at next e) =
    same_events r.events _ (completion-events r id by ran_at next e)
Write-Grows {r} (Write.reading id actor at) = same_events r.events _ (reading-events r id actor at)
Write-Grows {r} (Write.preference p) =
    unfold upsert_notification_preference in Extends-refl r.events
