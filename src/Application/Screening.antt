-- ===== src/Application/Screening.antt =====
-- internal/application/screening.go: a customer and its owners are screened, matches are disposed.
pub mod Gather
use Prim.Native.String.{◌++◌}
use financial_crime_complian.Common.{ℕ, String, List, [], ◌∷◌, Bool, true, false, not, ◌||◌, map}
use financial_crime_complian.Common.Text.{is_empty, trim_space}
use financial_crime_complian.Domain.Errors.{Error}
use financial_crime_complian.Domain.Audit.{AuditEvent, Time, str}
use financial_crime_complian.Domain.Customer.{Customer}
use financial_crime_complian.Domain.DueDiligence.{BeneficialOwner, DueDiligenceDetails}
use financial_crime_complian.Domain.Screening.{
  ScreeningRun, ScreeningMatch, ScreeningMatchStatus, ScreeningResult, ScreeningSchedule,
  ScreeningSubjectType, match_status_text,
}
use financial_crime_complian.Domain.Notification.{
  Notification, NotificationPreference, OutboxMessage,
}
use financial_crime_complian.Effects.{Exec, refuse_if, pure, raise, ◌>>=◌, ◌>>◌}
use financial_crime_complian.Application.Env.{Env}
use financial_crime_complian.Application.DueDiligence.{customer_event}
use Gather.{Subject, Provider, Batch, screen_subjects}

-- The interface ScreeningRepository.
pub record ScreeningRepository (S : Type 0) : Type 0 where
  pub get_customer : String → Exec S Customer
  pub get_due_diligence : String → Exec S DueDiligenceDetails
  pub save_screening :
      List ScreeningRun
      → List ScreeningMatch
      → List Notification
      → List OutboxMessage
      → List AuditEvent
      → Exec S Unit
  pub list_screening_matches : String → Exec S (List ScreeningMatch)
  pub disposition_screening_match :
      String → ScreeningMatchStatus → String → String → AuditEvent → Exec S ScreeningMatch
  pub upsert_screening_schedule : ScreeningSchedule → AuditEvent → Exec S ScreeningSchedule
  pub get_screening_schedule : String → Exec S ScreeningSchedule
  pub claim_due_screening_schedules : Time → ℕ → String → Time → Exec S (List ScreeningSchedule)
  pub complete_screening_schedule : String → String → Time → Time → String → Exec S Unit
  pub list_notifications : ℕ → Exec S (List Notification)
  pub read_notification : String → String → Time → Exec S Notification
  pub get_notification_preference : String → Exec S NotificationPreference
  pub upsert_notification_preference : NotificationPreference → Exec S NotificationPreference
  pub list_email_notification_recipients : Exec S (List String)

-- The customer first, then each beneficial owner.
unfoldable pub subjects_of : Customer → List BeneficialOwner → List Subject
subjects_of customer owners =
    record { kind = ScreeningSubjectType.customer; id = customer.id; name = customer.legal_name }
    ∷ map
        (λ o. record {
          kind = ScreeningSubjectType.beneficial_owner;
          id = o.id;
          name = o.full_name;
        })
        owners

abbrev pub is_disposition : ScreeningMatchStatus → Bool
is_disposition ScreeningMatchStatus.confirmed = true
is_disposition ScreeningMatchStatus.false_positive = true
is_disposition _ = false

module _ {S : Type 0} (repo : ScreeningRepository S) where
  -- ScreeningService.List
  unfoldable pub list : String → Exec S (List ScreeningMatch)
  list customer_id = repo.list_screening_matches (trim_space customer_id)

  unfoldable pub save : Batch → Exec S ScreeningResult
  unfolding ◌>>=◌
  save b = do
    repo.save_screening b.runs b.matches b.notifications b.outbox b.events
    pure (record { runs = b.runs; matches = b.matches })

module _ {S : Type 0} (repo : ScreeningRepository S) (provider : Provider) (webhook_url : String)
    (env : Env) where
  -- ScreeningService.ScreenCustomer
  unfoldable pub screen_customer : String → String → Exec S ScreeningResult
  unfolding subjects_of screen_subjects save ◌>>=◌ raise
  screen_customer customer_id actor =
      let id = trim_space customer_id in
      let by = trim_space actor in
      refuse_if (is_empty id || is_empty by) Error.invalid_screening (do
        customer ← repo.get_customer id
        cdd ← repo.get_due_diligence id
        recipients ← repo.list_email_notification_recipients
        batch ←
            screen_subjects provider env
              (record {
                customer_id = id;
                actor = by;
                webhook_url = webhook_url;
                recipients = recipients;
              })
              (subjects_of customer cdd.beneficial_owners)
        save repo batch)

module _ {S : Type 0} (repo : ScreeningRepository S) (env : Env) where
  -- ScreeningService.Disposition
  unfoldable pub disposition :
      String → ScreeningMatchStatus → String → String → Exec S ScreeningMatch
  unfolding customer_event raise
  disposition match_id status reason actor =
      let id = trim_space match_id in
      let why = trim_space reason in
      let by = trim_space actor in
      refuse_if (is_empty id || is_empty why || is_empty by || not (is_disposition status))
        Error.invalid_screening
        (repo.disposition_screening_match id status why by (
          customer_event env (env.new_id 0) "" ("screening.match_" ++ match_status_text status) by
            (("match_id", str id) ∷ ("reason", str why) ∷ [])))
