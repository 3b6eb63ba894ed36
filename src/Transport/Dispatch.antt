-- ===== src/Transport/Dispatch.antt =====
-- internal/transport/httpapi/handler.go: what each route does to the repository.
use financial_crime_complian.Application.Screening as Screenings
use financial_crime_complian.Memory.Customers as Memory
use financial_crime_complian.Memory.DueDiligence as Profiles
use financial_crime_complian.Transport.Handlers.Customers
use financial_crime_complian.Transport.Handlers.Transactions
use financial_crime_complian.Transport.Handlers.Cases
use financial_crime_complian.Transport.Handlers.DueDiligence
use financial_crime_complian.Transport.Handlers.Screening
use financial_crime_complian.Application.Env.{Env}
use financial_crime_complian.Application.Screening.Gather.{
  Provider, Context, Batch, screen_subjects, Subject,
}
use financial_crime_complian.Common.{String, ◌≡◌, arith, List, subst, All, refl, Bool}
use financial_crime_complian.Memory.{Repository}
use financial_crime_complian.Application.Screening.{save}
use financial_crime_complian.Transport.Effects.{
  OneCall, refuse_if-OneCall, IfBatch, >>=-OneCall, no_call, screen_all-ByActor, one_call,
  with_body-OneCall,
}
use financial_crime_complian.Platform.{
  step, saves_screening, stores_schedule, onboards, reviews, ingests, closes_alert, opens_case,
  assigns_case, comments_on_case, resolves_case, updates_profile, adds_owner, adds_document,
  reviews_document, disposes_match, reads_notification, sets_preference,
}
use financial_crime_complian.Memory.Ports.{screening_port}
use financial_crime_complian.Memory.Screening.{save_screening}
use financial_crime_complian.Effects.{Result, ◌>>=◌, continue, err, ok}
use financial_crime_complian.Common.Text.{trim_space}
use financial_crime_complian.Memory.Notifications.{list_email_notification_recipients}
use financial_crime_complian.Transport.Reads.{
  Reads, list_customers-Reads, get_customer-Reads, list_customer_transactions-Reads,
  list_audit_events-Reads, list_customer_activity-Reads, list_alerts-Reads, list_cases-Reads,
  get_case-Reads, get_due_diligence-Reads, list_screening_matches-Reads,
  get_screening_schedule-Reads, list_notifications-Reads, get_notification_preference-Reads,
}
use financial_crime_complian.Transport.Api.{Server, Visit, dispatch, memory_ports}
use financial_crime_complian.Application.Worker.{configure_schedule, new_schedule}
use financial_crime_complian.Auth.Tokens.{Principal}
use financial_crime_complian.Common.Int.{ℤ, to_nat}
use financial_crime_complian.Transport.Requests.{Request}
use financial_crime_complian.Transport.Respond.{respond}
use financial_crime_complian.Transport.Routes.{Endpoint}
use financial_crime_complian.Transport.Handlers.Customers.{reason_of}
use financial_crime_complian.Transport.Handlers.Transactions.{value_of}

module _ (r : Repository) where
  pub customer-Reads : (id : String) → Reads (Memory.get_customer id) r
  unfolding Memory.get_customer
  customer-Reads id = ground arith

  pub profile-Reads : (id : String) → Reads (Profiles.get_due_diligence id) r
  unfolding Profiles.get_due_diligence
  profile-Reads id = ground arith

  pub recipients-Reads : Reads list_email_notification_recipients r
  unfolding list_email_notification_recipients
  recipients-Reads = refl

-- A screening reads the customer, its due diligence and the recipients, and saves once.
module _ (env : Env) (p : Provider) (url : String) (who : String) (r : Repository) where
  saved-OneCall :
      (c : Context) (x : Result Batch)
      → c.actor ≡ trim_space who
      → IfBatch env c x
      → OneCall who r (continue x (save screening_port) r).1
  unfolding save step save_screening
  saved-OneCall c (err e) h b = no_call refl
  saved-OneCall c (ok b) h e =
      one_call (saves_screening b.matches b.notifications b.events)
        (subst (λ a. All (λ v. v.actor ≡ a) b.events) h e) refl

  -- The requests to the provider stand between the reads and the write.
  gathered-OneCall :
      (c : Context) (subjects : List Subject)
      → c.actor ≡ trim_space who
      → OneCall who r ((screen_subjects p env c subjects >>= save screening_port) r).1
  unfolding ◌>>=◌ screen_subjects
  gathered-OneCall c subjects h = saved-OneCall c _ h (screen_all-ByActor env c p 0 0 subjects)

  screen_customer-OneCall :
      (id : String) → OneCall who r (Screenings.screen_customer screening_port p url env id who r).1
  unfolding Screenings.screen_customer
  screen_customer-OneCall id = refuse_if-OneCall who r _ _ _ (
      >>=-OneCall who r _
        (λ customer.
          >>=-OneCall who r _
            (λ cdd.
              >>=-OneCall who r _
                (λ recipients.
                  gathered-OneCall
                    (record {
                      customer_id = trim_space id;
                      actor = trim_space who;
                      webhook_url = url;
                      recipients = recipients;
                    })
                    (Screenings.subjects_of customer cdd.beneficial_owners) refl)
                list_email_notification_recipients (recipients-Reads r))
            (Profiles.get_due_diligence (trim_space id)) (profile-Reads r _))
        (Memory.get_customer (trim_space id)) (customer-Reads r _))

module _ (env : Env) (who : String) (r : Repository) where
  configure_schedule-OneCall :
      (id : String) (enabled : Bool) (hours : ℤ)
      → OneCall who r (configure_schedule screening_port env id enabled hours who r).1
  unfolding configure_schedule step
  configure_schedule-OneCall id enabled hours = refuse_if-OneCall who r _ _ _ (
      >>=-OneCall who r _
        (λ customer.
          one_call
            (stores_schedule
              (new_schedule env (trim_space id) enabled (to_nat hours) (trim_space who)) _)
            (refl, refl) refl)
        (Memory.get_customer (trim_space id)) (customer-Reads r _))

-- Every route makes at most one call, in the name of its principal.
module _ {B K : Type 0} (server : Server B K) (v : Visit K) (by : Principal) (q : Request)
    (r : Repository) where
  pub dispatch-OneCall :
      (e : Endpoint) → OneCall by.subject r (dispatch memory_ports server v e by q r).1
  unfolding dispatch step respond Customers.onboard_customer Customers.review_customer
      Transactions.ingest_transaction Transactions.close_alert Cases.create_case Cases.assign_case
      Cases.comment_case Cases.resolve_case DueDiligence.update_due_diligence
      DueDiligence.add_beneficial_owner DueDiligence.add_kyc_document
      DueDiligence.review_kyc_document Screening.disposition_screening_match
      Screening.read_notification Screening.update_notification_preference Screening.screen_customer
      Screening.update_screening_schedule
  dispatch-OneCall Endpoint.health = no_call refl
  dispatch-OneCall Endpoint.ready = no_call refl
  dispatch-OneCall Endpoint.metrics = no_call refl
  dispatch-OneCall Endpoint.onboard_customer =
      with_body-OneCall _ r q.body.onboarding _ (λ cmd. one_call (onboards v.env _) refl refl)
  dispatch-OneCall Endpoint.list_customers = no_call (list_customers-Reads server.codec q r)
  dispatch-OneCall (Endpoint.get_customer id) = no_call (get_customer-Reads id r server.codec)
  dispatch-OneCall (Endpoint.list_customer_transactions id) =
      no_call (list_customer_transactions-Reads server.codec q r id)
  dispatch-OneCall (Endpoint.list_audit_events id) =
      no_call (list_audit_events-Reads server.codec q r id)
  dispatch-OneCall (Endpoint.list_customer_activity id) =
      no_call (list_customer_activity-Reads server.codec q r id)
  dispatch-OneCall (Endpoint.review_customer decision id) =
      with_body-OneCall _ r (reason_of q.body.review) _
        (λ reason. one_call (reviews v.env id decision by.subject reason) refl refl)
  dispatch-OneCall Endpoint.ingest_transaction =
      with_body-OneCall _ r q.body.transaction _ (λ cmd. one_call (ingests v.env _) refl refl)
  dispatch-OneCall Endpoint.list_alerts = no_call (list_alerts-Reads server.codec q r)
  dispatch-OneCall (Endpoint.close_alert id) =
      with_body-OneCall _ r (value_of q.body.review) _
        (λ reason. one_call (closes_alert v.env id by.subject reason) refl refl)
  dispatch-OneCall Endpoint.list_cases = no_call (list_cases-Reads server.codec q r)
  dispatch-OneCall Endpoint.create_case =
      with_body-OneCall _ r q.body.investigation _
        (λ b. one_call (opens_case v.env b.alert_id b.title b.priority by.subject) refl refl)
  dispatch-OneCall (Endpoint.get_case id) = no_call (get_case-Reads id r)
  dispatch-OneCall (Endpoint.assign_case id) =
      with_body-OneCall _ r q.body.case_text _
        (λ b. one_call (assigns_case v.env id b.assignee by.subject) refl refl)
  dispatch-OneCall (Endpoint.comment_case id) =
      with_body-OneCall _ r q.body.case_text _
        (λ b. one_call (comments_on_case v.env id b.body by.subject) refl refl)
  dispatch-OneCall (Endpoint.resolve_case id) =
      with_body-OneCall _ r q.body.case_text _
        (λ b. one_call (resolves_case v.env id b.resolution by.subject) refl refl)
  dispatch-OneCall (Endpoint.get_due_diligence id) = no_call (get_due_diligence-Reads id r)
  dispatch-OneCall (Endpoint.update_due_diligence id) =
      with_body-OneCall _ r q.body.profile _
        (λ p. one_call (updates_profile v.env (record p { customer_id = id }) by.subject) refl refl)
  dispatch-OneCall (Endpoint.add_beneficial_owner id) =
      with_body-OneCall _ r q.body.owner _
        (λ o. one_call (adds_owner v.env (record o { customer_id = id }) by.subject) refl refl)
  dispatch-OneCall (Endpoint.add_kyc_document id) =
      with_body-OneCall _ r q.body.document _
        (λ d. one_call (adds_document v.env (record d { customer_id = id }) by.subject) refl refl)
  dispatch-OneCall (Endpoint.review_kyc_document id) =
      with_body-OneCall _ r q.body.document_review _
        (λ status. one_call (reviews_document v.env id status by.subject) refl refl)
  dispatch-OneCall (Endpoint.screen_customer id) =
      screen_customer-OneCall v.env v.provider server.webhook_url by.subject r id
  dispatch-OneCall (Endpoint.list_screening_matches id) =
      no_call (list_screening_matches-Reads id r)
  dispatch-OneCall (Endpoint.disposition_screening_match id) =
      with_body-OneCall _ r q.body.disposition _
        (λ b. one_call (disposes_match v.env id b.status b.reason by.subject) refl refl)
  dispatch-OneCall (Endpoint.get_screening_schedule id) =
      no_call (get_screening_schedule-Reads id r)
  dispatch-OneCall (Endpoint.update_screening_schedule id) =
      with_body-OneCall _ r q.body.schedule _
        (λ b. configure_schedule-OneCall v.env by.subject r id b.enabled b.interval_hours)
  dispatch-OneCall Endpoint.list_notifications = no_call (list_notifications-Reads r)
  dispatch-OneCall (Endpoint.read_notification id) =
      one_call (reads_notification v.env id by.subject) refl refl
  dispatch-OneCall Endpoint.get_notification_preference =
      no_call (get_notification_preference-Reads by r)
  dispatch-OneCall Endpoint.update_notification_preference =
      with_body-OneCall _ r q.body.preference _ (λ b.
        one_call
          (sets_preference v.env server.parse_address by.subject b.email_address b.email_enabled)
          refl refl)
