-- ===== src/Application/Screening/Gather.antt =====
-- internal/application/screening.go: what ScreenCustomer gathers before it saves.
use Prim.Native.String.{◌++◌}
use mathlib.Core.List.{◌++◌ as append}
use financial_crime_complian.Common.{
  ℕ, suc, ◌+◌, ◌*◌, String, List, [], ◌∷◌, none, false, length, map, if◌then◌else◌,
}
use financial_crime_complian.Common.Int.{ℤ, pos}
use financial_crime_complian.Common.Text.{is_empty}
use financial_crime_complian.Domain.Audit.{AuditEvent, str, int, instant}
use financial_crime_complian.Domain.Screening.{
  ScreeningListType, ScreeningMatch, ScreeningMatchStatus, ScreeningRun, ScreeningSubjectType,
  list_type_text, subject_type_text,
}
use financial_crime_complian.Domain.Notification.{Notification, OutboxMessage}
use financial_crime_complian.Effects.{Result, ok, err, Exec}
use financial_crime_complian.Application.Env.{Env}
use financial_crime_complian.Application.DueDiligence.{customer_event}

pub record ScreeningCandidate : Type 0 where
  pub list_type : ScreeningListType
  pub name : String
  pub score : ℤ
  pub reason : String

-- The interface ScreeningProvider; `screen n` is the answer to the n-th request of one call.
pub record Provider : Type 0 where
  pub name : String
  pub screen : ℕ → String → Result (List ScreeningCandidate)

pub record Subject : Type 0 where
  pub kind : ScreeningSubjectType
  pub id : String
  pub name : String

-- The arguments of the call that the loops read, and the recipients that it has looked up.
pub record Context : Type 0 where
  pub customer_id : String
  pub actor : String
  pub webhook_url : String
  pub recipients : List String

-- The five lists that the loops append to.
pub record Batch : Type 0 where
  pub runs : List ScreeningRun
  pub matches : List ScreeningMatch
  pub notifications : List Notification
  pub outbox : List OutboxMessage
  pub events : List AuditEvent

abbrev pub empty_batch : Batch
empty_batch = record { runs = []; matches = []; notifications = []; outbox = []; events = [] }

infixr 65 ◌<>◌
abbrev pub ◌<>◌ : Batch → Batch → Batch
a <> b = record {
  runs = append a.runs b.runs;
  matches = append a.matches b.matches;
  notifications = append a.notifications b.notifications;
  outbox = append a.outbox b.outbox;
  events = append a.events b.events;
}

-- The channel and the destination of each message about one match: the webhook, if one is set,
-- and every recipient by email.
unfoldable pub destinations : Context → List (String × String)
destinations c =
    let emails = map (λ r. ("email", r)) c.recipients in
    if is_empty c.webhook_url then emails else ("webhook", c.webhook_url) ∷ emails

module _ (env : Env) (c : Context) where
  unfoldable pub to_match : ScreeningRun → String → ScreeningCandidate → ScreeningMatch
  to_match run id candidate = record {
    id = id;
    run_id = run.id;
    customer_id = c.customer_id;
    subject_type = run.subject_type;
    subject_id = run.subject_id;
    query_name = run.query_name;
    list_type = candidate.list_type;
    matched_name = candidate.name;
    score = candidate.score;
    reason = candidate.reason;
    status = ScreeningMatchStatus.potential;
    created_at = env.now;
    reviewed_by = "";
    reviewed_at = none;
    disposition_reason = "";
  }

  unfoldable pub to_notification : String → ScreeningMatch → Notification
  to_notification id m = record {
    id = id;
    customer_id = c.customer_id;
    match_id = m.id;
    type = "screening_match";
    title = "Potential " ++ list_type_text m.list_type ++ " match";
    message = m.query_name ++ " matched " ++ m.matched_name;
    read = false;
    created_at = env.now;
    read_by = "";
    read_at = none;
  }

  -- A message for each destination; the identifiers go on from the n-th.
  unfoldable pub to_outbox : Notification → ℕ → List (String × String) → List OutboxMessage
  to_outbox n next [] = []
  to_outbox n next ((channel, destination) ∷ rest) =
      record {
        id = env.new_id next;
        notification_id = n.id;
        channel = channel;
        destination = destination;
        payload =
            ("id", str n.id)
            ∷ ("customer_id", str c.customer_id)
            ∷ ("match_id", str n.match_id)
            ∷ ("title", str n.title)
            ∷ ("message", str n.message)
            ∷ ("created_at", instant env.now)
            ∷ [];
        status = "pending";
        attempts = 0;
        next_attempt_at = env.now;
        last_error = "";
        lease_owner = "";
        lease_until = none;
        created_at = env.now;
        delivered_at = none;
      }
      ∷ to_outbox n (suc next) rest

  -- The loop over the candidates of one subject: each takes an identifier for its match, one for
  -- its notification and one for each message.
  unfoldable pub screen_candidates : ScreeningRun → ℕ → List ScreeningCandidate → Batch
  unfolding to_match to_notification to_outbox destinations
  screen_candidates run next [] = empty_batch
  screen_candidates run next (candidate ∷ rest) =
      let m = to_match run (env.new_id next) candidate in
      let n = to_notification (env.new_id (next + 1)) m in
      record {
        runs = [];
        matches = m ∷ [];
        notifications = n ∷ [];
        outbox = to_outbox n (next + 2) (destinations c);
        events = [];
      }
      <> screen_candidates run (next + 2 + length (destinations c)) rest

  unfoldable pub to_run : String → String → Subject → ScreeningRun
  to_run provider_name id subject = record {
    id = id;
    customer_id = c.customer_id;
    subject_type = subject.kind;
    subject_id = subject.id;
    query_name = subject.name;
    provider = provider_name;
    created_by = c.actor;
    created_at = env.now;
  }

  unfoldable pub completed_event : ScreeningRun → String → ℕ → AuditEvent
  unfolding customer_event
  completed_event run id match_count =
      customer_event env id c.customer_id "screening.completed" c.actor (
        ("run_id", str run.id)
        ∷ ("subject_type", str (subject_type_text run.subject_type))
        ∷ ("subject_id", str run.subject_id)
        ∷ ("match_count", int (pos match_count))
        ∷ ("provider", str run.provider)
        ∷ [])

  -- One subject: its run, what its candidates give, and its event.
  unfoldable pub screen_subject : String → ℕ → Subject → List ScreeningCandidate → Batch
  unfolding to_run screen_candidates completed_event
  screen_subject provider_name next subject candidates =
      let run = to_run provider_name (env.new_id next) subject in
      let used = (2 + length (destinations c)) * length candidates in
      record {
        runs = run ∷ [];
        matches = [];
        notifications = [];
        outbox = [];
        events = completed_event run (env.new_id (next + 1 + used)) (length candidates) ∷ [];
      }
      <> screen_candidates run (next + 1) candidates

  abbrev pub used_by : List ScreeningCandidate → ℕ
  unfolding destinations
  used_by candidates = 2 + (2 + length (destinations c)) * length candidates

  abbrev pub combine : Batch → Result Batch → Result Batch
  combine b (ok rest) = ok (b <> rest)
  combine b (err e) = err e

  -- The loop over the subjects, which stops at the first error of the provider.
  unfoldable pub screen_all : Provider → ℕ → ℕ → List Subject → Result Batch
  unfolding screen_subject
  screen_all p request next [] = ok empty_batch
  screen_all p request next (subject ∷ rest) = elim (p.screen request subject.name) [
    | err e ↦ err e
    | ok candidates ↦
        combine (screen_subject p.name next subject candidates)
          (screen_all p (suc request) (next + used_by candidates) rest)
  ]

unfoldable pub screen_subjects :
    {S : Type 0} → Provider → Env → Context → List Subject → Exec S Batch
unfolding screen_all
screen_subjects p env c subjects s = (screen_all env c p 0 0 subjects, s)
