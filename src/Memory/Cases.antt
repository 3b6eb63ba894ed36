-- ===== src/Memory/Cases.antt =====
-- memory/repository.go: investigation cases.
use financial_crime_complian.Common.{String, List, none, some, ◌==◌, any, if◌then◌else◌}
use financial_crime_complian.Common.Dict.{get, put, get_list, push, values}
use financial_crime_complian.Domain.Errors.{Error}
use financial_crime_complian.Domain.Audit.{AuditEvent}
use financial_crime_complian.Domain.Monitoring.{Alert, is_open}
use financial_crime_complian.Domain.Case.{InvestigationCase, CaseComment, CaseStatus, is_resolved}
use financial_crime_complian.Effects.{Exec, ok, err}
use financial_crime_complian.Memory.{Repository}
use financial_crime_complian.Memory.Transactions.{close}

unfoldable pub create_case : InvestigationCase → AuditEvent → Exec Repository InvestigationCase
create_case item event r = elim (get item.alert_id r.alerts) [
  | none ↦ (err Error.alert_not_found, r)
  | some alert ↦
      if is_open alert.status
      then (if any (λ existing. existing.alert_id == item.alert_id) (values r.cases)
          then (err Error.alert_has_case, r)
          else let stored : InvestigationCase = record item { customer_id = alert.customer_id } in
            (
              ok stored,
              record r {
                cases = put stored.id stored r.cases;
                events = push stored.id event r.events;
              },
            ))
      else (err Error.alert_conflict, r)
]

unfoldable pub get_case : String → Exec Repository InvestigationCase
get_case id r = elim (get id r.cases) [
  | none ↦ (err Error.case_not_found, r)
  | some item ↦ (ok item, r)
]

unfoldable pub list_case_comments : String → Exec Repository (List CaseComment)
list_case_comments id r = (ok (get_list id r.case_comments), r)

unfoldable pub assign_case : String → String → AuditEvent → Exec Repository InvestigationCase
assign_case id assignee event r = elim (get id r.cases) [
  | none ↦ (err Error.case_not_found, r)
  | some item ↦
      if is_resolved item.status
      then (err Error.case_conflict, r)
      else let assigned : InvestigationCase = record item {
        assigned_to = assignee;
        status = CaseStatus.in_progress;
        updated_at = event.occurred_at;
      } in
        (ok assigned, record r { cases = put id assigned r.cases; events = push id event r.events })
]

unfoldable pub add_case_comment : CaseComment → AuditEvent → Exec Repository CaseComment
add_case_comment comment event r = elim (get comment.case_id r.cases) [
  | none ↦ (err Error.case_not_found, r)
  | some item ↦ if is_resolved item.status then (err Error.case_conflict, r) else (
    ok comment,
    record r {
      cases = put item.id (record item { updated_at = comment.created_at }) r.cases;
      case_comments = push item.id comment r.case_comments;
      events = push item.id event r.events;
    },
  )
]

abbrev pub resolve : InvestigationCase → String → String → AuditEvent → InvestigationCase
resolve item resolution actor event = record item {
  status = CaseStatus.resolved;
  resolution = resolution;
  resolved_by = actor;
  resolved_at = some event.occurred_at;
  updated_at = event.occurred_at;
}

-- The writes of ResolveCase, once the checks have passed.
unfoldable pub store_resolution :
    String
    → InvestigationCase
    → Alert
    → String
    → String
    → AuditEvent
    → AuditEvent
    → Exec Repository InvestigationCase
store_resolution id item alert resolution actor case_event alert_event r = (
  ok (resolve item resolution actor case_event),
  record r {
    cases = put id (resolve item resolution actor case_event) r.cases;
    alerts = put alert.id (close alert actor resolution case_event) r.alerts;
    events =
        push alert.id (record alert_event { aggregate_id = alert.id })
          (push id case_event r.events);
  },
)

-- An alert that is missing reads as the zero alert, which is not open.
unfoldable pub resolve_case :
    String → String → String → AuditEvent → AuditEvent → Exec Repository InvestigationCase
unfolding store_resolution
resolve_case id resolution actor case_event alert_event r = elim (get id r.cases) [
  | none ↦ (err Error.case_not_found, r)
  | some item ↦
      if is_resolved item.status
      then (err Error.case_conflict, r)
      else (elim (get item.alert_id r.alerts) [
        | none ↦ (err Error.alert_conflict, r)
        | some alert ↦
            if is_open alert.status
            then store_resolution id item alert resolution actor case_event alert_event r
            else (err Error.alert_conflict, r)
      ])
]
