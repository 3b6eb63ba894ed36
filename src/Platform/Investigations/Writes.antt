-- ===== src/Platform/Investigations/Writes.antt =====
-- What each write of memory/repository.go does to the cases and the alerts.
use financial_crime_complian.Platform.Investigations.{
  CaseWrite, same, opened, amended, settled, closed, raised, put_all,
}
use financial_crime_complian.Common.{
  String, List, [], ◌∷◌, ◌≡◌, refl, ap, ◌∙◌, arith, any, ◌==◌, inl, inr, Option-cases, Bool-cases,
  ℕ,
}
use financial_crime_complian.Common.Dict.{get, values}
use financial_crime_complian.Domain.Audit.{AuditEvent}
use financial_crime_complian.Domain.Transaction.{Transaction}
use financial_crime_complian.Domain.Monitoring.{Alert, is_open, MonitoringFinding}
use financial_crime_complian.Domain.Case.{InvestigationCase, CaseComment, CaseStatus, is_resolved}
use financial_crime_complian.Application.Env.{Env}
use financial_crime_complian.Memory.{Repository}
use financial_crime_complian.Memory.Transactions.{
  create_transaction_states, store_transaction, store_alerts, close_alert, close,
}
use financial_crime_complian.Memory.Cases.{
  create_case, assign_case, add_case_comment, resolve_case, resolve,
}
use financial_crime_complian.Platform.{Call, ingests}
use financial_crime_complian.Platform.Write.{Write}
use financial_crime_complian.Application.Transactions.{submit, IngestTransactionCommand, alerts_of}
use financial_crime_complian.Common.{length}
use financial_crime_complian.Memory.Customers.{create_customer, review_customer}
use financial_crime_complian.Memory.Ports.{transaction_port}
use financial_crime_complian.Memory.DueDiligence.{
  upsert_cdd_profile, add_beneficial_owner, add_kyc_document, review_kyc_document,
}
use financial_crime_complian.Platform.Ingestion.{length-alert_events_of}
use financial_crime_complian.Memory.Screening.{save_screening, disposition_screening_match}
use financial_crime_complian.Memory.Schedules.{
  upsert_screening_schedule, claim_due_screening_schedules, complete_screening_schedule,
}
use financial_crime_complian.Memory.Notifications.{
  read_notification, upsert_notification_preference,
}
use financial_crime_complian.Application.Cases.{new_case}

module _ (call : Call) (r : Repository) where
  abbrev Does : Repository → Type 0
  Does s = CaseWrite call r.cases r.alerts s.cases s.alerts

  close_alert-Does :
      (id actor reason : String) (v : AuditEvent) → Does (close_alert id actor reason v r).1
  unfolding close_alert
  close_alert-Does id actor reason v = elim (Option-cases (get id r.alerts)) [
    | inl h ↦ same (rw (h, close_alert)) (rw (h, close_alert))
    | inr (al, h) ↦ elim (Bool-cases (is_open al.status)) [
      | inl e ↦
          closed id al (close al actor reason v) h (rw (h, close_alert, e)) (rw (h, close_alert, e))
            refl refl refl
      | inr e ↦ same (rw (h, close_alert, e)) (rw (h, close_alert, e))
    ]
  ]

  assign_case-Does : (id to : String) (v : AuditEvent) → Does (assign_case id to v r).1
  unfolding assign_case
  assign_case-Does id to v = elim (Option-cases (get id r.cases)) [
    | inl h ↦ same (rw (h, assign_case)) (rw (h, assign_case))
    | inr (x, h) ↦ elim (Bool-cases (is_resolved x.status)) [
      | inl e ↦ same (rw (h, assign_case, e)) (rw (h, assign_case, e))
      | inr e ↦
          amended id x
            (record x {
              assigned_to = to;
              status = CaseStatus.in_progress;
              updated_at = v.occurred_at;
            })
            h (inl (rw (h, assign_case, e))) (rw (h, assign_case, e)) refl refl refl refl
    ]
  ]

  add_case_comment-Does : (c : CaseComment) (v : AuditEvent) → Does (add_case_comment c v r).1
  unfolding add_case_comment
  add_case_comment-Does c v = elim (Option-cases (get c.case_id r.cases)) [
    | inl h ↦ same (rw (h, add_case_comment)) (rw (h, add_case_comment))
    | inr (x, h) ↦ elim (Bool-cases (is_resolved x.status)) [
      | inl e ↦ same (rw (h, add_case_comment, e)) (rw (h, add_case_comment, e))
      | inr e ↦
          amended c.case_id x (record x { updated_at = c.created_at }) h
            (inr (rw (h, add_case_comment, e))) (rw (h, add_case_comment, e)) refl refl refl e
    ]
  ]

  resolve_case-Does :
      (id text actor : String) (v w : AuditEvent) → Does (resolve_case id text actor v w r).1
  unfolding resolve_case
  resolve_case-Does id text actor v w = elim (Option-cases (get id r.cases)) [
    | inl h ↦ same (rw (h, resolve_case)) (rw (h, resolve_case))
    | inr (x, h) ↦ elim (Bool-cases (is_resolved x.status)) [
      | inl e ↦ same (rw (h, resolve_case, e)) (rw (h, resolve_case, e))
      | inr e ↦ elim (Option-cases (get x.alert_id r.alerts)) [
        | inl k ↦ same (rw (h, resolve_case, e, k)) (rw (h, resolve_case, e, k))
        | inr (al, k) ↦ elim (Bool-cases (is_open al.status)) [
          | inl o ↦
              settled id x (resolve x text actor v) al (close al actor text v) h k o
                (rw (h, resolve_case, e, k, o)) (rw (h, resolve_case, e, k, o)) refl refl refl refl
                refl refl
          | inr o ↦ same (rw (h, resolve_case, e, k, o)) (rw (h, resolve_case, e, k, o))
        ]
      ]
    ]
  ]

  create_case-Does :
      (item : InvestigationCase) (v : AuditEvent)
      → item.status ≡ CaseStatus.open_case
      → Does (create_case item v r).1
  unfolding create_case
  create_case-Does item v st = elim (Option-cases (get item.alert_id r.alerts)) [
    | inl h ↦ same (rw (h, create_case)) (rw (h, create_case))
    | inr (al, h) ↦ elim (Bool-cases (is_open al.status)) [
      | inr e ↦ same (rw (h, create_case, e)) (rw (h, create_case, e))
      | inl e ↦ elim (Bool-cases (any (λ x. x.alert_id == item.alert_id) (values r.cases))) [
        | inl n ↦ same (rw (h, create_case, e, n)) (rw (h, create_case, e, n))
        | inr n ↦
            opened (record item { customer_id = al.customer_id }) al h refl
              (rw (h, create_case, e, n)) (rw (h, create_case, e, n)) st n
      ]
    ]
  ]

store_alerts-cases :
    (alerts : List Alert) (vs : List AuditEvent) (r : Repository)
    → (store_alerts alerts vs r).cases ≡ r.cases
unfolding store_alerts
store_alerts-cases [] vs r = refl
store_alerts-cases (a ∷ alerts) [] r = refl
store_alerts-cases (a ∷ alerts) (v ∷ vs) r = store_alerts-cases alerts vs _

store_alerts-alerts :
    (alerts : List Alert) (vs : List AuditEvent) (r : Repository)
    → length alerts ≡ length vs
    → (store_alerts alerts vs r).alerts ≡ put_all alerts r.alerts
unfolding store_alerts put_all
store_alerts-alerts [] vs r h = refl
store_alerts-alerts (a ∷ alerts) [] r h = ground arith
store_alerts-alerts (a ∷ alerts) (v ∷ vs) r h = store_alerts-alerts alerts vs _ (omega arith)

store_transaction-CaseWrite :
    (call : Call) (env : Env) (cmd : IngestTransactionCommand) (t : Transaction) (v : AuditEvent)
    (n : ℕ) (fs : List MonitoringFinding) (vs : List AuditEvent) (r s : Repository)
    → call ≡ ingests env cmd
    → length (alerts_of env t n fs) ≡ length vs
    → s ≡ (store_transaction t v (alerts_of env t n fs) vs r).1
    → CaseWrite call r.cases r.alerts s.cases s.alerts
unfolding store_transaction
store_transaction-CaseWrite call env cmd t v n fs vs r s q h e =
    raised env cmd t n fs q (ap (λ s. s.cases) e ∙ store_alerts-cases (alerts_of env t n fs) vs _)
      (ap (λ s. s.alerts) e ∙ store_alerts-alerts (alerts_of env t n fs) vs _ h)

submit-CaseWrite :
    (call : Call) (env : Env) (cmd c : IngestTransactionCommand) (r : Repository)
    → call ≡ ingests env cmd
    → CaseWrite call r.cases r.alerts
        (submit transaction_port env c r).1.cases
        (submit transaction_port env c r).1.alerts
unfolding submit
submit-CaseWrite call env cmd c r q = elim (create_transaction_states _ _ _ _ r) [
  | inl e ↦ same (ap (λ s. s.cases) e) (ap (λ s. s.alerts) e)
  | inr e ↦
      store_transaction-CaseWrite call env cmd _ _ 2 _ _ r _ q (length-alert_events_of env 2 _) e
]

-- Every write of the platform does one of these to the cases and the alerts.
pub Write-CaseWrite :
    {call : Call} {r s : Repository}
    → Write call r s
    → CaseWrite call r.cases r.alerts s.cases s.alerts
unfolding create_customer review_customer upsert_cdd_profile add_beneficial_owner add_kyc_document
    review_kyc_document save_screening disposition_screening_match upsert_screening_schedule
    claim_due_screening_schedules complete_screening_schedule read_notification
    upsert_notification_preference new_case
Write-CaseWrite {call} {r} (Write.transaction env cmd e) = submit-CaseWrite call env cmd _ r e
Write-CaseWrite {call} {r} (Write.alert_closure id actor reason v) =
    close_alert-Does call r id actor reason v
Write-CaseWrite {call} {r} (Write.new_investigation env alert title p actor v) =
    create_case-Does call r (new_case env alert title p actor) v refl
Write-CaseWrite {call} {r} (Write.assignment id to v) = assign_case-Does call r id to v
Write-CaseWrite {call} {r} (Write.comment c v) = add_case_comment-Does call r c v
Write-CaseWrite {call} {r} (Write.resolution id text actor v w) =
    resolve_case-Does call r id text actor v w
Write-CaseWrite Write.rejected = same refl refl
Write-CaseWrite _ = same (ground arith) (ground arith)
