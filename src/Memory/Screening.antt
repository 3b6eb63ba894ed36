-- ===== src/Memory/Screening.antt =====
-- memory/repository.go: screening results and their disposition.
use financial_crime_complian.Common.{String, List, [], ◌∷◌, none, some, ◌==◌, select, if◌then◌else◌}
use financial_crime_complian.Common.Dict.{Dict, get, put, push, values}
use financial_crime_complian.Domain.Errors.{Error}
use financial_crime_complian.Domain.Audit.{AuditEvent}
use financial_crime_complian.Domain.Screening.{
  ScreeningRun, ScreeningMatch, ScreeningMatchStatus, is_potential,
}
use financial_crime_complian.Domain.Notification.{Notification, OutboxMessage}
use financial_crime_complian.Effects.{Exec, ok, err}
use financial_crime_complian.Memory.{Repository}

unfoldable pub store_matches : List ScreeningMatch → Dict ScreeningMatch → Dict ScreeningMatch
store_matches [] d = d
store_matches (m ∷ ms) d = store_matches ms (put m.id m d)

unfoldable pub store_notifications : List Notification → Dict Notification → Dict Notification
store_notifications [] d = d
store_notifications (n ∷ ns) d = store_notifications ns (put n.id n d)

unfoldable pub push_events : List AuditEvent → Dict (List AuditEvent) → Dict (List AuditEvent)
push_events [] d = d
push_events (e ∷ es) d = push_events es (push e.aggregate_id e d)

-- SaveScreening; the runs and the outbox messages are dropped by this repository.
unfoldable pub save_screening :
    List ScreeningRun
    → List ScreeningMatch
    → List Notification
    → List OutboxMessage
    → List AuditEvent
    → Exec Repository Unit
unfolding store_matches store_notifications push_events
save_screening _ matches notifications _ events r = (
  ok tt,
  record r {
    screening_matches = store_matches matches r.screening_matches;
    notifications = store_notifications notifications r.notifications;
    events = push_events events r.events;
  },
)

unfoldable pub list_screening_matches : String → Exec Repository (List ScreeningMatch)
list_screening_matches customer_id r =
    (ok (select (λ m. m.customer_id == customer_id) (values r.screening_matches)), r)

abbrev pub dispose :
    ScreeningMatchStatus → String → String → AuditEvent → ScreeningMatch → ScreeningMatch
dispose status reason actor event m = record m {
  status = status;
  reviewed_by = actor;
  reviewed_at = some event.occurred_at;
  disposition_reason = reason;
}

unfoldable pub disposition_screening_match :
    String → ScreeningMatchStatus → String → String → AuditEvent → Exec Repository ScreeningMatch
disposition_screening_match id status reason actor event r = elim (get id r.screening_matches) [
  | none ↦ (err Error.review_conflict, r)
  | some m ↦
      if is_potential m.status
      then (
        ok (dispose status reason actor event m),
        record r {
          screening_matches = put id (dispose status reason actor event m) r.screening_matches;
          events = push m.customer_id (record event { aggregate_id = m.customer_id }) r.events;
        },
      )
      else (err Error.review_conflict, r)
]
