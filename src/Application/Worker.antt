-- ===== src/Application/Worker.antt =====
-- internal/application/screening.go: schedules, the screening worker and its retries, and the
-- notifications that the screening service shows.
pub mod Backoff
pub mod Retry
use financial_crime_complian.Common.{
  ℕ, zero, suc, ◌+◌, ◌*◌, String, List, [], ◌∷◌, Option, none, some, Bool, true, false, not, ◌||◌,
  ◌&&◌, ◌==◌, if◌then◌else◌,
}
use financial_crime_complian.Common.Int.{ℤ, is_below, is_above, to_nat}
use financial_crime_complian.Common.Text.{is_empty, trim_space}
use financial_crime_complian.Domain.Errors.{Error, error_text}
use financial_crime_complian.Domain.Audit.{Time, int, flag, instant}
use financial_crime_complian.Domain.Screening.{ScreeningSchedule}
use financial_crime_complian.Domain.Notification.{Notification, NotificationPreference}
use financial_crime_complian.Effects.{Exec, refuse_if, Result, ok, err, raise, ◌>>=◌, ◌>>◌}
use financial_crime_complian.Application.Env.{Env}
use financial_crime_complian.Application.DueDiligence.{customer_event}
use financial_crime_complian.Application.Screening.{ScreeningRepository, screen_customer}
use financial_crime_complian.Application.Screening.Gather.{Provider}
use Backoff.{minute, hour, double_until}

-- screeningRetryBackoff; failures below 1 count as 1.
unfoldable pub screening_retry_backoff : ℕ → Time
unfolding double_until
screening_retry_backoff zero = double_until (24 * hour) 0 (5 * minute)
screening_retry_backoff (suc n) = double_until (24 * hour) n (5 * minute)

abbrev pub new_schedule : Env → String → Bool → ℕ → String → ScreeningSchedule
new_schedule env customer_id enabled interval_hours actor = record {
  customer_id = customer_id;
  enabled = enabled;
  interval_hours = interval_hours;
  next_run_at = env.now + interval_hours * hour;
  last_run_at = none;
  last_error = "";
  failure_count = 0;
  lease_owner = "";
  lease_until = none;
  updated_by = actor;
  updated_at = env.now;
}

-- limit < 1 || limit > 100
abbrev pub notification_limit : ℤ → ℕ
notification_limit limit = if is_below limit 1 || is_above limit 100 then 100 else to_nat limit

-- validEmail; `parse_address` is mail.ParseAddress, which gives the address that it finds in a text.
abbrev pub valid_email : (String → Option String) → String → Bool
valid_email parse_address value = elim (parse_address value) [
  | none ↦ false
  | some address ↦ address == value
]

abbrev pub or_unset : String → Result NotificationPreference → Result NotificationPreference
or_unset actor (err Error.notification_not_found) =
    ok (record { actor_subject = actor; email_address = ""; email_enabled = false; updated_at = 0 })
or_unset actor r = r

module _ {S : Type 0} (repo : ScreeningRepository S) (env : Env) where
  -- ScreeningService.ConfigureSchedule
  unfoldable pub configure_schedule : String → Bool → ℤ → String → Exec S ScreeningSchedule
  unfolding customer_event ◌>>=◌ raise
  configure_schedule customer_id enabled interval_hours actor =
      let id = trim_space customer_id in
      let by = trim_space actor in
      let schedule = new_schedule env id enabled (to_nat interval_hours) by in
      refuse_if
        (is_empty id || is_empty by || is_below interval_hours 1 || is_above interval_hours 8760)
        Error.invalid_screening
        (do
          repo.get_customer id
          repo.upsert_screening_schedule schedule (
              customer_event env (env.new_id 0) id "screening.schedule_updated" by (
                ("enabled", flag enabled)
                ∷ ("interval_hours", int interval_hours)
                ∷ ("next_run_at", instant schedule.next_run_at)
                ∷ [])))

  -- ScreeningService.ReadNotification
  unfoldable pub read_notification : String → String → Exec S Notification
  unfolding raise
  read_notification notification_id actor =
      let id = trim_space notification_id in
      let by = trim_space actor in
      refuse_if (is_empty id || is_empty by) Error.invalid_screening
        (repo.read_notification id by env.now)

  -- ScreeningService.ConfigureNotificationPreference
  unfoldable pub configure_notification_preference :
      (String → Option String) → String → String → Bool → Exec S NotificationPreference
  unfolding raise
  configure_notification_preference parse_address actor email enabled =
      let by = trim_space actor in
      let address = trim_space email in
      refuse_if
        (is_empty by
          || (enabled && not (valid_email parse_address address))
          || (not (is_empty address) && not (valid_email parse_address address)))
        Error.invalid_notification_preference
        (repo.upsert_notification_preference (record {
          actor_subject = by;
          email_address = address;
          email_enabled = enabled;
          updated_at = env.now;
        }))

module _ {S : Type 0} (repo : ScreeningRepository S) where
  -- ScreeningService.GetSchedule
  unfoldable pub get_schedule : String → Exec S ScreeningSchedule
  get_schedule customer_id = repo.get_screening_schedule (trim_space customer_id)

  -- ScreeningService.ListNotifications
  unfoldable pub list_notifications : ℤ → Exec S (List Notification)
  list_notifications limit = repo.list_notifications (notification_limit limit)

  -- ScreeningService.GetNotificationPreference
  unfoldable pub get_notification_preference : String → Exec S NotificationPreference
  unfolding raise
  get_notification_preference actor s =
      let by = trim_space actor in
      if is_empty by
      then raise Error.invalid_notification_preference s
      else let (r, s') = repo.get_notification_preference by s in (or_unset by r, s')

-- What RunDue returns: the jobs that completed, and an error.
pub record Outcome : Type 0 where
  pub completed : ℕ
  pub error : Option Error

-- errorText
abbrev pub failure_text {ℓ} : {A : Type ℓ} → Result A → String
failure_text (ok _) = ""
failure_text (err e) = error_text e

abbrev pub succeeded {ℓ} : {A : Type ℓ} → Result A → Bool
succeeded (ok _) = true
succeeded (err _) = false

-- The next run of a schedule: after its interval, or after the backoff of a failure.
abbrev pub next_run : Time → ScreeningSchedule → Bool → Time
unfolding screening_retry_backoff
next_run now s true = now + s.interval_hours * hour
next_run now s false = now + screening_retry_backoff (s.failure_count + 1)

-- The value and the error after the loop, with `failed` jobs.
abbrev pub outcome : ℕ → ℕ → Outcome
outcome completed zero = record { completed = completed; error = none }
outcome completed (suc n) = record {
  completed = completed;
  error = some (Error.screening_jobs_failed (suc n));
}

-- limit < 1
abbrev pub worker_limit : ℤ → ℕ
worker_limit limit = if is_below limit 1 then 25 else to_nat limit

module _ {S : Type 0} (repo : ScreeningRepository S) (webhook_url worker_id : String)
    (now : Time) where
  -- One job: the customer is screened, and the schedule completed.
  unfoldable pub run_job : Provider → Env → ScreeningSchedule → S → Bool × Result (Unit {0}) × S
  unfolding screen_customer
  run_job provider env schedule s =
      let (ran, s1) =
        screen_customer repo provider webhook_url env schedule.customer_id
          "ongoing-monitoring-worker" s in
      let (done, s2) =
        repo.complete_screening_schedule schedule.customer_id worker_id now
          (next_run now schedule (succeeded ran)) (failure_text ran) s1 in
      (succeeded ran, done, s2)

  -- The loop over the claimed schedules, which stops if a schedule cannot be completed. The n-th
  -- job has its own clock, identifiers and provider answers.
  unfoldable pub run_jobs :
      (ℕ → Provider) → (ℕ → Env) → ℕ → ℕ → ℕ → List ScreeningSchedule → S → Outcome × S
  unfolding run_job
  run_jobs providers envs n completed failed [] s = (outcome completed failed, s)
  run_jobs providers envs n completed failed (schedule ∷ rest) s =
      let (ran, done, s') = run_job (providers n) (envs n) schedule s in
      elim done [
        | err e ↦ (record { completed = completed; error = some e }, s')
        | ok _ ↦
            run_jobs providers envs (suc n) (if ran then suc completed else completed)
              (if ran then failed else suc failed) rest s'
      ]

  -- ScreeningService.RunDue
  unfoldable pub run_due : Time → (ℕ → Provider) → (ℕ → Env) → ℤ → S → Outcome × S
  unfolding run_jobs
  run_due lease_duration providers envs limit s =
      let (claimed, s') =
        repo.claim_due_screening_schedules now (worker_limit limit) worker_id (now + lease_duration)
          s in
      elim claimed [
        | err e ↦ (record { completed = 0; error = some e }, s')
        | ok schedules ↦ run_jobs providers envs 0 0 0 schedules s'
      ]
