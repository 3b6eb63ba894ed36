-- ===== src/Application/Cases.antt =====
-- internal/application/cases.go: investigation cases.
use Prim.Native.String.{len}
use financial_crime_complian.Common.{String, List, [], ◌∷◌, none, Bool, true, false, not, ◌||◌, ltb}
use financial_crime_complian.Common.Text.{is_empty, trim_space}
use financial_crime_complian.Domain.Errors.{Error}
use financial_crime_complian.Domain.Audit.{AuditEvent, Value, str}
use financial_crime_complian.Domain.Case.{
  InvestigationCase, CaseComment, CaseDetails, CasePriority, CaseStatus, priority_text,
}
use financial_crime_complian.Effects.{Exec, refuse_if, pure, raise, ◌>>=◌}
use financial_crime_complian.Application.Env.{Env}

-- The interface CaseRepository.
pub record CaseRepository (S : Type 0) : Type 0 where
  pub create_case : InvestigationCase → AuditEvent → Exec S InvestigationCase
  pub get_case : String → Exec S InvestigationCase
  pub list_case_comments : String → Exec S (List CaseComment)
  pub list_audit_events : String → Exec S (List AuditEvent)
  pub assign_case : String → String → AuditEvent → Exec S InvestigationCase
  pub add_case_comment : CaseComment → AuditEvent → Exec S CaseComment
  pub resolve_case : String → String → String → AuditEvent → AuditEvent → Exec S InvestigationCase

abbrev pub valid_case_priority : CasePriority → Bool
valid_case_priority (CasePriority.other _) = false
valid_case_priority _ = true

unfoldable pub case_event :
    String → String → String → Env → String → List (String × Value) → AuditEvent
case_event id kind aggregate_id env actor payload = record {
  id = id;
  aggregate_type = "case";
  aggregate_id = aggregate_id;
  event_type = kind;
  actor = actor;
  occurred_at = env.now;
  payload = payload;
}

unfoldable pub new_case : Env → String → String → CasePriority → String → InvestigationCase
new_case env alert_id title priority actor = record {
  id = env.new_id 0;
  alert_id = alert_id;
  customer_id = "";
  title = title;
  priority = priority;
  status = CaseStatus.open_case;
  assigned_to = "";
  resolution = "";
  created_by = actor;
  created_at = env.now;
  updated_at = env.now;
  resolved_by = "";
  resolved_at = none;
}

-- The event of the alert; the repository fills in the alert's identifier.
unfoldable pub alert_closed_event : Env → String → String → AuditEvent
alert_closed_event env actor resolution = record {
  id = env.new_id 1;
  aggregate_type = "alert";
  aggregate_id = "";
  event_type = "alert.closed";
  actor = actor;
  occurred_at = env.now;
  payload = ("reason", str resolution) ∷ ("source", str "case_resolution") ∷ [];
}

module _ {S : Type 0} (repo : CaseRepository S) where
  -- CaseService.Details
  unfoldable pub details : String → Exec S CaseDetails
  unfolding ◌>>=◌
  details case_id = do
    item ← repo.get_case (trim_space case_id)
    comments ← repo.list_case_comments item.id
    timeline ← repo.list_audit_events item.id
    pure (record { investigation = item; comments = comments; timeline = timeline })

module _ {S : Type 0} (repo : CaseRepository S) (env : Env) where
  -- CaseService.Create
  unfoldable pub create : String → String → CasePriority → String → Exec S InvestigationCase
  unfolding new_case case_event raise
  create alert_id title priority actor =
      let alert = trim_space alert_id in
      let name = trim_space title in
      let by = trim_space actor in
      let item = new_case env alert name priority by in
      refuse_if
        (is_empty alert
          || is_empty name
          || ltb 200 (len name)
          || is_empty by
          || not (valid_case_priority priority))
        Error.invalid_case
        (repo.create_case item (
          case_event (env.new_id 1) "case.created" item.id env by
            (("alert_id", str alert) ∷ ("priority", str (priority_text priority)) ∷ [])))

  -- CaseService.Assign
  unfoldable pub assign : String → String → String → Exec S InvestigationCase
  unfolding case_event raise
  assign case_id assignee actor =
      let id = trim_space case_id in
      let to = trim_space assignee in
      let by = trim_space actor in
      refuse_if (is_empty id || is_empty to || ltb 200 (len to) || is_empty by) Error.invalid_case (
        repo.assign_case id to
          (case_event (env.new_id 0) "case.assigned" id env by (("assigned_to", str to) ∷ [])))

  -- CaseService.Comment
  unfoldable pub comment : String → String → String → Exec S CaseComment
  unfolding case_event raise
  comment case_id body actor =
      let id = trim_space case_id in
      let text = trim_space body in
      let by = trim_space actor in
      refuse_if (is_empty id || is_empty text || ltb 4000 (len text) || is_empty by)
        Error.invalid_case
        (repo.add_case_comment
          (record {
            id = env.new_id 0;
            case_id = id;
            author = by;
            body = text;
            created_at = env.now;
          })
          (case_event (env.new_id 1) "case.comment_added" id env by
            (("comment_id", str (env.new_id 0)) ∷ [])))

  -- CaseService.Resolve
  unfoldable pub resolve : String → String → String → Exec S InvestigationCase
  unfolding case_event alert_closed_event raise
  resolve case_id resolution actor =
      let id = trim_space case_id in
      let text = trim_space resolution in
      let by = trim_space actor in
      refuse_if (is_empty id || is_empty text || ltb 4000 (len text) || is_empty by)
        Error.invalid_case
        (repo.resolve_case id text by
          (case_event (env.new_id 0) "case.resolved" id env by (("resolution", str text) ∷ []))
          (alert_closed_event env by text))
