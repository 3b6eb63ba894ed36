-- ===== src/Memory/Leases.antt =====
-- memory/repository.go: the leases that keep two screening workers off one schedule.
use financial_crime_complian.Common.{
  String, [], ◌∷◌, ◌≡◌, ◌≢◌, ◌<◌, refl, ℕ, suc, true, false, Option, none, some, arith, ◌==◌,
  eq_iff, if◌then◌else◌, ◌∙◌,
}
use financial_crime_complian.Common.Dict.{Dict, get, put}
use financial_crime_complian.Effects.{ok, err}
use financial_crime_complian.Domain.Errors.{Error}
use financial_crime_complian.Domain.Audit.{Time}
use financial_crime_complian.Domain.Screening.{ScreeningSchedule}
use financial_crime_complian.Memory.{Repository}
use financial_crime_complian.Memory.Schedules.{
  claim_all, claim_due_screening_schedules, complete_screening_schedule, is_due, lease, complete,
}

-- What a claim leaves under a key.
claimed : Time → String → Time → Option ScreeningSchedule → Option ScreeningSchedule
claimed now owner until none = none
claimed now owner until (some s) = some (if is_due s now then lease owner until s else s)

get-claim_all :
    (now : Time) (owner : String) (until : Time) (id : String) (d : Dict ScreeningSchedule)
    → get id (claim_all now owner until d).0 ≡ claimed now owner until (get id d)
unfolding get claim_all claimed
get-claim_all now owner until id [] = refl
get-claim_all now owner until id ((k, s) ∷ d) = ground (arith, get-claim_all now owner until id d)

-- A schedule whose lease has not run out is not due.
leased_is_not_due :
    (s : ScreeningSchedule) (owner : String) (until now : Time)
    → now < until
    → is_due (lease owner until s) now ≡ false
leased_is_not_due s owner until now h = ground arith

module _ (now : Time) (limit : ℕ) (owner : String) (until : Time) (r : Repository) (id : String)
    (s : ScreeningSchedule) where
  get-claimed :
      get id r.screening_schedules ≡ some s
      → get id (claim_due_screening_schedules now limit owner until r).1.screening_schedules
        ≡ some (if is_due s now then lease owner until s else s)
  unfolding claim_due_screening_schedules claimed
  get-claimed h = get-claim_all now owner until id r.screening_schedules ∙ rw h refl

others_cannot_complete :
    (id owner : String) (ran_at next : Time) (e : String) (r : Repository) (s : ScreeningSchedule)
    → get id r.screening_schedules ≡ some s
    → s.lease_owner ≢ owner
    → complete_screening_schedule id owner ran_at next e r
      ≡ (err Error.screening_schedule_not_found, r)
unfolding complete_screening_schedule
others_cannot_complete id owner ran_at next e r s h n =
    let other : (s.lease_owner == owner) ≡ false = ground (arith, eq_iff s.lease_owner owner) in
    rw (h, complete_screening_schedule, other) refl

-- How often a job has failed in a row, after a run that ended with this error or with none.
abbrev pub failures_after : String → ℕ → ℕ
failures_after String.[] n = 0
failures_after (String.◌∷◌ _ _) n = suc n

-- What is left of a schedule when its job is over: nobody has a lease on it, the run is recorded, and
-- its configuration is as it was.
pub record IsReleased (ran_at next : Time) (e : String) (s t : ScreeningSchedule) : Type 0 where
  pub lease_owner : t.lease_owner ≡ ""
  pub lease_until : t.lease_until ≡ none
  pub last_run_at : t.last_run_at ≡ some ran_at
  pub last_error : t.last_error ≡ e
  pub next_run_at : t.next_run_at ≡ next
  pub failure_count : t.failure_count ≡ failures_after e s.failure_count
  pub updated_at : t.updated_at ≡ ran_at
  pub updated_by : t.updated_by ≡ s.updated_by
  pub customer_id : t.customer_id ≡ s.customer_id
  pub enabled : t.enabled ≡ s.enabled
  pub interval_hours : t.interval_hours ≡ s.interval_hours

complete-failures :
    (ran_at next : Time) (e : String) (s : ScreeningSchedule)
    → (complete ran_at next e s).failure_count ≡ failures_after e s.failure_count
complete-failures ran_at next String.[] s = refl
complete-failures ran_at next (String.◌∷◌ c e) s = refl

complete-IsReleased :
    (ran_at next : Time) (e : String) (s : ScreeningSchedule)
    → IsReleased ran_at next e s (complete ran_at next e s)
complete-IsReleased ran_at next e s = record {
  lease_owner = refl;
  lease_until = refl;
  last_run_at = refl;
  last_error = refl;
  next_run_at = refl;
  failure_count = complete-failures ran_at next e s;
  updated_at = refl;
  updated_by = refl;
  customer_id = refl;
  enabled = refl;
  interval_hours = refl;
}

owner_completes :
    (id owner : String) (ran_at next : Time) (e : String) (r : Repository) (s : ScreeningSchedule)
    → get id r.screening_schedules ≡ some s
    → s.lease_owner ≡ owner
    → complete_screening_schedule id owner ran_at next e r ≡ (
      ok tt,
      record r { screening_schedules = put id (complete ran_at next e s) r.screening_schedules },
    )
unfolding complete_screening_schedule
owner_completes id owner ran_at next e r s h o =
    let own : (s.lease_owner == owner) ≡ true = ground (arith, eq_iff s.lease_owner owner) in
    rw (h, complete_screening_schedule, own) refl

-- A claim leases every schedule that is due, also past the limit of what it returns, and as long as
-- the lease lasts no other claim changes the schedule.
pub lease_is_exclusive :
    (now now' : Time) (limit limit' : ℕ) (owner owner' : String) (until until' : Time)
    (r : Repository) (id : String) (s : ScreeningSchedule)
    → get id r.screening_schedules ≡ some s
    → is_due s now ≡ true
    → now' < until
    → let r1 = (claim_due_screening_schedules now limit owner until r).1 in
      let r2 = (claim_due_screening_schedules now' limit' owner' until' r1).1 in
      (get id r1.screening_schedules ≡ some (lease owner until s))
      × (get id r2.screening_schedules ≡ some (lease owner until s))
lease_is_exclusive now now' limit limit' owner owner' until until' r id s h due early =
    let r1 : Repository = (claim_due_screening_schedules now limit owner until r).1 in
    let first : get id r1.screening_schedules ≡ some (lease owner until s) =
      get-claimed now limit owner until r id s h ∙ rw due refl in
    (
      first,
      get-claimed now' limit' owner' until' r1 id (lease owner until s) first
          ∙ rw (leased_is_not_due s owner until now' early) refl,
    )

-- Only the worker that holds the lease completes a job: after a claim, a completion by another
-- worker fails and changes nothing. The owner's succeeds and stores a schedule that nobody has a
-- lease on, with the run, its error and the next run, with no failure counted if the run ended
-- without an error and one more if not, and otherwise as it was; that schedule is not due before
-- its next run, at its next run it is, and nothing else in the repository changes.
pub only_the_owner_completes :
    (now : Time) (limit : ℕ) (owner owner' : String) (until : Time) (r : Repository) (id : String)
    (s : ScreeningSchedule) (ran_at next later : Time) (e : String)
    → get id r.screening_schedules ≡ some s
    → is_due s now ≡ true
    → owner ≢ owner'
    → later < next
    → let r1 = (claim_due_screening_schedules now limit owner until r).1 in
      (complete_screening_schedule id owner' ran_at next e r1
        ≡ (err Error.screening_schedule_not_found, r1))
      × (freed : ScreeningSchedule) × (complete_screening_schedule id owner ran_at next e r1
          ≡ (ok tt, record r1 { screening_schedules = put id freed r1.screening_schedules }))
      × IsReleased ran_at next e s freed
      × (is_due freed later ≡ false)
      × (is_due freed next ≡ true)
only_the_owner_completes now limit owner owner' until r id s ran_at next later e h due other early =
    let r1 : Repository = (claim_due_screening_schedules now limit owner until r).1 in
    let first : get id r1.screening_schedules ≡ some (lease owner until s) =
      get-claimed now limit owner until r id s h ∙ rw due refl in
    let on : s.enabled ≡ true = ground arith in
    (
      others_cannot_complete id owner' ran_at next e r1 (lease owner until s) first other,
      complete ran_at next e (lease owner until s),
      owner_completes id owner ran_at next e r1 (lease owner until s) first refl,
      complete-IsReleased ran_at next e s,
      ground arith,
      ground arith,
    )
