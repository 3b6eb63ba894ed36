-- ===== src/Transport/Handlers/Screening.antt =====
-- internal/transport/httpapi/handler.go: the handlers of screenings, schedules and notifications.
use financial_crime_complian.Application.Worker as Worker
use financial_crime_complian.Application.Screening.{list, disposition, ScreeningRepository}
use financial_crime_complian.Application.Screening as Screening
use financial_crime_complian.Transport.Requests.{
  write_error, read_error, write_json, Response, Request, Reply,
}
use financial_crime_complian.Application.Env.{Env}
use financial_crime_complian.Transport.Handlers.Customers.{customer_failure}
use financial_crime_complian.Transport.Respond.{respond, with_body, Handler}
use financial_crime_complian.Application.Worker.{
  get_schedule, configure_notification_preference, configure_schedule,
}
use financial_crime_complian.Auth.Tokens.{Principal}
use financial_crime_complian.Domain.Errors.{Error}
use financial_crime_complian.Application.Screening.Gather.{Provider}
use financial_crime_complian.Common.{String, Option}
use financial_crime_complian.Common.Int.{pos}

unfoldable pub disposition_failure : Error → Response
unfolding write_error read_error
disposition_failure Error.invalid_screening =
    write_error 422 "invalid_disposition" "Disposition failed validation"
disposition_failure Error.review_conflict =
    write_error 409 "review_conflict" "Match is not pending review"
disposition_failure _ = read_error

unfoldable pub schedule_failure : Error → Response
unfolding write_error read_error
schedule_failure Error.screening_schedule_not_found =
    write_error 404 "schedule_not_found" "Ongoing screening is not configured"
schedule_failure _ = read_error

unfoldable pub configure_failure : Error → Response
unfolding write_error customer_failure
configure_failure Error.invalid_screening =
    write_error 422 "invalid_schedule" "Interval must be between 1 and 8760 hours"
configure_failure e = customer_failure e

unfoldable pub notification_failure : Error → Response
unfolding write_error read_error
notification_failure Error.notification_not_found =
    write_error 404 "notification_not_found" "Notification was not found"
notification_failure _ = read_error

unfoldable pub preference_failure : Error → Response
unfolding write_error read_error
preference_failure Error.invalid_notification_preference =
    write_error 400 "invalid_notification_preference"
      "A valid email address is required when email notifications are enabled"
preference_failure _ = read_error

module _ {S : Type 0} (repo : ScreeningRepository S) where
  -- Handler.listScreeningMatches
  unfoldable pub list_screening_matches : String → Handler S
  unfolding list respond read_error write_json
  list_screening_matches id =
      respond (λ e. read_error) (λ ms. write_json 200 (Reply.matches ms)) (list repo id)

  -- Handler.getScreeningSchedule
  unfoldable pub get_screening_schedule : String → Handler S
  unfolding get_schedule respond schedule_failure write_json
  get_screening_schedule id =
      respond schedule_failure (λ s. write_json 200 (Reply.schedule s)) (get_schedule repo id)

  -- Handler.listNotifications
  unfoldable pub list_notifications : Handler S
  unfolding Worker.list_notifications respond read_error write_json
  list_notifications =
      respond (λ e. read_error) (λ ns. write_json 200 (Reply.notifications ns))
        (Worker.list_notifications repo (pos 100))

  -- Handler.getNotificationPreference
  unfoldable pub get_notification_preference : Principal → Handler S
  unfolding Worker.get_notification_preference respond read_error write_json
  get_notification_preference by =
      respond (λ e. read_error) (λ p. write_json 200 (Reply.preference p))
        (Worker.get_notification_preference repo by.subject)

module _ {S : Type 0} (repo : ScreeningRepository S) (env : Env) (by : Principal) where
  -- Handler.screenCustomer
  unfoldable pub screen_customer : Provider → String → String → Handler S
  unfolding Screening.screen_customer respond customer_failure write_json
  screen_customer provider webhook_url id =
      respond customer_failure (λ x. write_json 201 (Reply.screening x))
        (Screening.screen_customer repo provider webhook_url env id by.subject)

  -- Handler.dispositionScreeningMatch
  unfoldable pub disposition_screening_match : String → Request → Handler S
  unfolding disposition with_body respond disposition_failure write_json
  disposition_screening_match id q = with_body q.body.disposition λ b.
      respond disposition_failure (λ m. write_json 200 (Reply.match m))
        (disposition repo env id b.status b.reason by.subject)

  -- Handler.updateScreeningSchedule
  unfoldable pub update_screening_schedule : String → Request → Handler S
  unfolding configure_schedule with_body respond configure_failure write_json
  update_screening_schedule id q = with_body q.body.schedule λ b.
      respond configure_failure (λ s. write_json 200 (Reply.schedule s))
        (configure_schedule repo env id b.enabled b.interval_hours by.subject)

  -- Handler.readNotification
  unfoldable pub read_notification : String → Handler S
  unfolding Worker.read_notification respond notification_failure write_json
  read_notification id =
      respond notification_failure (λ n. write_json 200 (Reply.notification n))
        (Worker.read_notification repo env id by.subject)

  -- Handler.updateNotificationPreference
  unfoldable pub update_notification_preference : (String → Option String) → Request → Handler S
  unfolding configure_notification_preference with_body respond preference_failure write_json
  update_notification_preference parse_address q = with_body q.body.preference λ b.
      respond preference_failure (λ p. write_json 200 (Reply.preference p))
        (configure_notification_preference repo env parse_address by.subject b.email_address
          b.email_enabled)
