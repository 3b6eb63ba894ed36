-- ===== src/Tests/Workers.antt =====
-- The workers on concrete data.
use financial_crime_complian.Common.{
  ◌≡◌, ◌≢◌, ◌≤◌, ◌*◌, ◌^◌, refl, some, true, false, arith, String, eq_iff,
}
use financial_crime_complian.Common.Dict.{get, put}
use financial_crime_complian.Domain.Screening.{ScreeningSchedule}
use financial_crime_complian.Domain.Errors.{Error}
use financial_crime_complian.Effects.{ok, err}
use financial_crime_complian.Application.Worker.{screening_retry_backoff}
use financial_crime_complian.Memory.Schedules.{
  lease, complete_screening_schedule, claim_due_screening_schedules, is_due,
}
use financial_crime_complian.Memory.{Repository}
use financial_crime_complian.Application.Worker.Backoff.{minute, hour}
use financial_crime_complian.Tests.Fixtures.{schedule, scheduled}
use financial_crime_complian.Application.Worker.Retry.{min, backoff-eq-capped_power, backoff_bounds}
use financial_crime_complian.Application.Delivery.{delivery_backoff}
use financial_crime_complian.Memory.Leases.{
  IsReleased, lease_is_exclusive, only_the_owner_completes,
}

backoff-eq-capped_power_example :
    (screening_retry_backoff 4 ≡ min (24 * hour) (5 * minute * 2 ^ 3))
    × (delivery_backoff 4 ≡ min hour (minute * 2 ^ 3))
backoff-eq-capped_power_example = backoff-eq-capped_power 3

backoff_bounds_example :
    ((5 * minute ≤ screening_retry_backoff 4)
      × (screening_retry_backoff 4 ≤ 24 * hour)
      × (screening_retry_backoff 4 ≤ screening_retry_backoff 5))
    × ((minute ≤ delivery_backoff 4)
        × (delivery_backoff 4 ≤ hour)
        × (delivery_backoff 4 ≤ delivery_backoff 5))
backoff_bounds_example = backoff_bounds 4

abbrev worker : String
worker = "w1"

abbrev other_worker : String
other_worker = "w2"

abbrev claimed_once : Repository
claimed_once = (claim_due_screening_schedules 200 1 worker 500 scheduled).1

abbrev claimed_twice : Repository
claimed_twice = (claim_due_screening_schedules 300 5 other_worker 600 claimed_once).1

schedule_is_stored : get "c1" scheduled.screening_schedules ≡ some schedule
unfolding get
schedule_is_stored = refl

lease_is_exclusive_example :
    (get "c1" claimed_once.screening_schedules ≡ some (lease worker 500 schedule))
    × (get "c1" claimed_twice.screening_schedules ≡ some (lease worker 500 schedule))
lease_is_exclusive_example =
    lease_is_exclusive 200 300 1 5 worker other_worker 500 600 scheduled "c1" schedule
      schedule_is_stored refl (omega arith)

workers_differ : worker ≢ other_worker
workers_differ h = ground (arith, eq_iff worker other_worker)

only_the_owner_completes_example :
    (complete_screening_schedule "c1" other_worker 200 900 "timeout" claimed_once
      ≡ (err Error.screening_schedule_not_found, claimed_once))
    × (freed : ScreeningSchedule) × (complete_screening_schedule "c1" worker 200 900 "timeout"
          claimed_once
        ≡ (
          ok tt,
          record claimed_once {
            screening_schedules = put "c1" freed claimed_once.screening_schedules;
          },
        ))
    × IsReleased 200 900 "timeout" schedule freed
    × (is_due freed 300 ≡ false)
    × (is_due freed 900 ≡ true)
only_the_owner_completes_example =
    only_the_owner_completes 200 1 worker other_worker 500 scheduled "c1" schedule 200 900 300
      "timeout" schedule_is_stored refl workers_differ (omega arith)
