-- ===== src/Transport/Atomic.antt =====
-- internal/application/screening.go: the services that read before they write, when they fail.
use financial_crime_complian.Application.Screening as Screenings
use financial_crime_complian.Memory.Customers as Memory
use financial_crime_complian.Memory.DueDiligence as Profiles
use financial_crime_complian.Memory.{Repository}
use financial_crime_complian.Effects.{Exec, refuse_if, ◌>>=◌, Result, continue, ok, err}
use financial_crime_complian.Application.Env.{Env}
use financial_crime_complian.Common.{String, Bool, ◌≡◌, inl, true, ◌⊎◌, List, false, refl, inr}
use financial_crime_complian.Platform.Atomic.{IsAtomic, succeeds, step-succeeds}
use financial_crime_complian.Domain.Errors.{Error}
use financial_crime_complian.Application.Screening.{save}
use financial_crime_complian.Application.Worker.{configure_schedule, succeeded}
use financial_crime_complian.Application.Screening.Gather.{
  Provider, screen_subjects, Batch, Context, Subject,
}
use financial_crime_complian.Platform.{step, stores_schedule}
use financial_crime_complian.Memory.Screening.{save_screening}
use financial_crime_complian.Memory.Ports.{screening_port}
use financial_crime_complian.Transport.Reads.{Reads}
use financial_crime_complian.Common.Text.{trim_space}
use financial_crime_complian.Memory.Notifications.{list_email_notification_recipients}
use financial_crime_complian.Transport.Dispatch.{recipients-Reads, profile-Reads, customer-Reads}
use financial_crime_complian.Common.Int.{ℤ}

module _ (r : Repository) where
  refused-IsAtomic :
      {A : Type 0} (bad : Bool) (e : Error) (m : Exec Repository A)
      → IsAtomic m r
      → IsAtomic (refuse_if bad e m) r
  unfolding refuse_if
  refused-IsAtomic true e m h = inl refl
  refused-IsAtomic false e m h = h

  module _ {A B : Type 0} (f : A → Exec Repository B) (h : (a : A) → IsAtomic (f a) r) where
    continued-IsAtomic :
        (x : Result A) (t : Repository)
        → t ≡ r
        → ((continue x f t).1 ≡ r) ⊎ (succeeded (continue x f t).0 ≡ true)
    continued-IsAtomic (ok a) t e = rw e (h a)
    continued-IsAtomic (err x) t e = inl e

    >>=-IsAtomic : (m : Exec Repository A) → Reads m r → IsAtomic (m >>= f) r
    unfolding ◌>>=◌
    >>=-IsAtomic m e = continued-IsAtomic (m r).0 (m r).1 e

  module _ (env : Env) (who : String) where
    -- A screening that the provider fails saves nothing.
    saved-IsAtomic :
        (x : Result Batch)
        → ((continue x (save screening_port) r).1 ≡ r)
          ⊎ (succeeded (continue x (save screening_port) r).0 ≡ true)
    unfolding save save_screening
    saved-IsAtomic (ok b) = inr refl
    saved-IsAtomic (err e) = inl refl

    gathered-IsAtomic :
        (p : Provider) (c : Context) (subjects : List Subject)
        → IsAtomic (screen_subjects p env c subjects >>= save screening_port) r
    unfolding ◌>>=◌ screen_subjects
    gathered-IsAtomic p c subjects = saved-IsAtomic _

    pub screen_customer-IsAtomic :
        (p : Provider) (url id : String)
        → IsAtomic (Screenings.screen_customer screening_port p url env id who) r
    unfolding Screenings.screen_customer
    screen_customer-IsAtomic p url id = refused-IsAtomic _ _ _ (
        >>=-IsAtomic _
          (λ customer.
            >>=-IsAtomic _
              (λ cdd.
                >>=-IsAtomic _
                  (λ recipients.
                    gathered-IsAtomic p
                      (record {
                        customer_id = trim_space id;
                        actor = trim_space who;
                        webhook_url = url;
                        recipients = recipients;
                      })
                      (Screenings.subjects_of customer cdd.beneficial_owners))
                  list_email_notification_recipients (recipients-Reads r))
              (Profiles.get_due_diligence (trim_space id)) (profile-Reads r _))
          (Memory.get_customer (trim_space id)) (customer-Reads r _))

    pub configure_schedule-IsAtomic :
        (id : String) (enabled : Bool) (hours : ℤ)
        → IsAtomic (configure_schedule screening_port env id enabled hours who) r
    unfolding configure_schedule step succeeds
    configure_schedule-IsAtomic id enabled hours = refused-IsAtomic _ _ _ (
        >>=-IsAtomic _ (λ customer. step-succeeds (stores_schedule _ _) r)
          (Memory.get_customer (trim_space id)) (customer-Reads r _))
