-- ===== src/Memory/Schedules.antt =====
-- memory/repository.go: screening schedules and their leases.
use financial_crime_complian.Common.{
  ℕ, suc, String, List, [], ◌∷◌, Option, none, some, Bool, true, ◌&&◌, ◌==◌, leb, ltb, take,
  if◌then◌else◌,
}
use financial_crime_complian.Common.Text.{is_empty}
use financial_crime_complian.Common.Dict.{Dict, get, put, push}
use financial_crime_complian.Common.Sort.{sort}
use financial_crime_complian.Domain.Errors.{Error}
use financial_crime_complian.Domain.Audit.{AuditEvent, Time}
use financial_crime_complian.Domain.Screening.{ScreeningSchedule}
use financial_crime_complian.Effects.{Exec, ok, err}
use financial_crime_complian.Memory.{Repository}

-- A new configuration keeps the time of the last run, and nothing else of the schedule before it.
abbrev pub keep_last_run : Option ScreeningSchedule → ScreeningSchedule → ScreeningSchedule
keep_last_run none schedule = schedule
keep_last_run (some previous) schedule = record schedule { last_run_at = previous.last_run_at }

unfoldable pub upsert_screening_schedule :
    ScreeningSchedule → AuditEvent → Exec Repository ScreeningSchedule
upsert_screening_schedule schedule event r = elim (get schedule.customer_id r.customers) [
  | none ↦ (err Error.customer_not_found, r)
  | some _ ↦
      let stored = keep_last_run (get schedule.customer_id r.screening_schedules) schedule in
      (
        ok stored,
        record r {
          screening_schedules = put schedule.customer_id stored r.screening_schedules;
          events = push schedule.customer_id event r.events;
        },
      )
]

unfoldable pub get_screening_schedule : String → Exec Repository ScreeningSchedule
get_screening_schedule customer_id r = elim (get customer_id r.screening_schedules) [
  | none ↦ (err Error.screening_schedule_not_found, r)
  | some schedule ↦ (ok schedule, r)
]

-- schedule.LeaseUntil == nil || !schedule.LeaseUntil.After(now)
abbrev pub lease_is_over : Option Time → Time → Bool
lease_is_over none now = true
lease_is_over (some until) now = leb until now

abbrev pub is_due : ScreeningSchedule → Time → Bool
is_due s now = s.enabled && (leb s.next_run_at now && lease_is_over s.lease_until now)

abbrev pub lease : String → Time → ScreeningSchedule → ScreeningSchedule
lease owner until s = record s { lease_owner = owner; lease_until = some until }

-- The loop of ClaimDueScreeningSchedules: the map with its due schedules leased, and those schedules.
unfoldable pub claim_all :
    Time → String → Time → Dict ScreeningSchedule → Dict ScreeningSchedule × List ScreeningSchedule
claim_all now owner until [] = ([], [])
claim_all now owner until ((id, s) ∷ d) =
    let (d', claimed) = claim_all now owner until d in
    if is_due s now
    then ((id, lease owner until s) ∷ d', lease owner until s ∷ claimed)
    else ((id, s) ∷ d', claimed)

abbrev pub runs_before : ScreeningSchedule → ScreeningSchedule → Bool
runs_before a b = ltb a.next_run_at b.next_run_at

unfoldable pub claim_due_screening_schedules :
    Time → ℕ → String → Time → Exec Repository (List ScreeningSchedule)
unfolding claim_all sort
claim_due_screening_schedules now limit owner until r =
    let (schedules, claimed) = claim_all now owner until r.screening_schedules in
    (ok (take limit (sort runs_before claimed)), record r { screening_schedules = schedules })

abbrev pub complete : Time → Time → String → ScreeningSchedule → ScreeningSchedule
complete ran_at next_run last_error s = record s {
  last_run_at = some ran_at;
  last_error = last_error;
  next_run_at = next_run;
  failure_count = if is_empty last_error then 0 else suc s.failure_count;
  lease_owner = "";
  lease_until = none;
  updated_at = ran_at;
}

unfoldable pub complete_screening_schedule :
    String → String → Time → Time → String → Exec Repository Unit
complete_screening_schedule customer_id owner ran_at next_run last_error r =
    elim (get customer_id r.screening_schedules) [
      | none ↦ (err Error.screening_schedule_not_found, r)
      | some s ↦
          if s.lease_owner == owner
          then (
            ok tt,
            record r {
              screening_schedules =
                  put customer_id (complete ran_at next_run last_error s) r.screening_schedules;
            },
          )
          else (err Error.screening_schedule_not_found, r)
    ]
