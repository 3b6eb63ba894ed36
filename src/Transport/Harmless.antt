-- ===== src/Transport/Harmless.antt =====
-- internal/transport/httpapi/handler.go: a handler that answers 400 or more has written nothing.
use financial_crime_complian.Transport.Handlers.Customers
use financial_crime_complian.Transport.Handlers.Transactions
use financial_crime_complian.Transport.Handlers.Cases
use financial_crime_complian.Transport.Handlers.DueDiligence
use financial_crime_complian.Transport.Handlers.Screening
use financial_crime_complian.Memory.{Repository}
use financial_crime_complian.Transport.Respond.{with_body, respond, Handler, answer}
use financial_crime_complian.Domain.Errors.{Error}
use financial_crime_complian.Common.{
  Option, inl, some, none, ◌≡◌, ◌<◌, ◌⊎◌, refl, true, inr, arith, ◌∙◌,
}
use financial_crime_complian.Transport.Requests.{Response, Request, write_json, Reply}
use financial_crime_complian.Effects.{Result, ok, err}
use financial_crime_complian.Application.Worker.{succeeded}
use financial_crime_complian.Platform.Atomic.{succeeds, step-succeeds}
use financial_crime_complian.Transport.Api.{Server, Visit, dispatch, open_route, memory_ports}
use financial_crime_complian.Auth.Tokens.{Principal}
use financial_crime_complian.Platform.{
  Call, step, onboards, reviews, ingests, closes_alert, opens_case, assigns_case, comments_on_case,
  resolves_case, updates_profile, adds_owner, adds_document, reviews_document, disposes_match,
  sets_preference, reads_notification,
}
use financial_crime_complian.Application.Transactions.{IngestTransactionResult}
use financial_crime_complian.Transport.Routes.{Endpoint}
use financial_crime_complian.Transport.Reads.{
  list_customers-Reads, get_customer-Reads, list_customer_transactions-Reads,
  list_audit_events-Reads, list_customer_activity-Reads, list_alerts-Reads, list_cases-Reads,
  get_case-Reads, get_due_diligence-Reads, list_screening_matches-Reads,
  get_screening_schedule-Reads, list_notifications-Reads, get_notification_preference-Reads,
}
use financial_crime_complian.Transport.Handlers.Customers.{reason_of}
use financial_crime_complian.Transport.Handlers.Transactions.{value_of}
use financial_crime_complian.Transport.Atomic.{
  screen_customer-IsAtomic, configure_schedule-IsAtomic,
}

-- An answer below 400, or a state that is as it was.
abbrev pub IsHarmless : Response × Repository → Repository → Type 0
IsHarmless x r = (x.1 ≡ r) ⊎ (x.0.status < 400)

module _ (r : Repository) where
  pub with_body-IsHarmless :
      {A : Type 0} (body : Option A) (next : A → Handler Repository)
      → ((a : A) → IsHarmless (next a r) r)
      → IsHarmless (with_body body next r) r
  unfolding with_body
  with_body-IsHarmless none next h = inl refl
  with_body-IsHarmless (some a) next h = h a

  answered-IsHarmless :
      {A : Type 0} (f : Error → Response) (g : A → Response) (x : Result A) (t : Repository)
      → ((a : A) → (g a).status < 400)
      → (t ≡ r) ⊎ (succeeded x ≡ true)
      → IsHarmless (answer f g x, t) r
  answered-IsHarmless f g (ok a) t low h = inr (low a)
  answered-IsHarmless f g (err e) t low (inl h) = inl h
  answered-IsHarmless f g (err e) t low (inr h) = cc

module _ {B K : Type 0} (server : Server B K) (v : Visit K) (by : Principal) (q : Request)
    (r : Repository) where
  -- The answer of a handler that calls one service of the platform.
  made :
      {A : Type 0} (f : Error → Response) (g : A → Response) (x : Result A) (t : Repository)
      (c : Call)
      → ((a : A) → (g a).status < 400)
      → t ≡ step c r
      → succeeded x ≡ succeeds c r
      → IsHarmless (answer f g x, t) r
  made f g x t c low e k =
      answered-IsHarmless r f g x t low
        (elim (step-succeeds c r) [ inl h ↦ inl (e ∙ h) | inr h ↦ inr (k ∙ h) ])

  low_ingested : (x : IngestTransactionResult) → (Transactions.ingested_response x).status < 400
  unfolding Transactions.ingested_response
  low_ingested x = ground arith

  pub dispatch-IsHarmless : (e : Endpoint) → IsHarmless (dispatch memory_ports server v e by q r) r
  unfolding dispatch step succeeds respond write_json open_route Customers.onboard_customer
      Customers.review_customer Transactions.ingest_transaction Transactions.close_alert
      Cases.create_case Cases.assign_case Cases.comment_case Cases.resolve_case
      DueDiligence.update_due_diligence DueDiligence.add_beneficial_owner
      DueDiligence.add_kyc_document DueDiligence.review_kyc_document
      Screening.disposition_screening_match Screening.read_notification
      Screening.update_notification_preference Screening.screen_customer
      Screening.update_screening_schedule
  dispatch-IsHarmless Endpoint.health = inl refl
  dispatch-IsHarmless Endpoint.ready = inl refl
  dispatch-IsHarmless Endpoint.metrics = inl refl
  dispatch-IsHarmless Endpoint.list_customers = inl (list_customers-Reads server.codec q r)
  dispatch-IsHarmless (Endpoint.get_customer id) = inl (get_customer-Reads id r server.codec)
  dispatch-IsHarmless (Endpoint.list_customer_transactions id) =
      inl (list_customer_transactions-Reads server.codec q r id)
  dispatch-IsHarmless (Endpoint.list_audit_events id) =
      inl (list_audit_events-Reads server.codec q r id)
  dispatch-IsHarmless (Endpoint.list_customer_activity id) =
      inl (list_customer_activity-Reads server.codec q r id)
  dispatch-IsHarmless Endpoint.list_alerts = inl (list_alerts-Reads server.codec q r)
  dispatch-IsHarmless Endpoint.list_cases = inl (list_cases-Reads server.codec q r)
  dispatch-IsHarmless (Endpoint.get_case id) = inl (get_case-Reads id r)
  dispatch-IsHarmless (Endpoint.get_due_diligence id) = inl (get_due_diligence-Reads id r)
  dispatch-IsHarmless (Endpoint.list_screening_matches id) = inl (list_screening_matches-Reads id r)
  dispatch-IsHarmless (Endpoint.get_screening_schedule id) = inl (get_screening_schedule-Reads id r)
  dispatch-IsHarmless Endpoint.list_notifications = inl (list_notifications-Reads r)
  dispatch-IsHarmless Endpoint.get_notification_preference =
      inl (get_notification_preference-Reads by r)
  dispatch-IsHarmless Endpoint.onboard_customer = with_body-IsHarmless r q.body.onboarding _ λ b.
      made Customers.onboard_failure (λ x. write_json 201 (Reply.customer x)) _ _
        (onboards v.env (record b { actor = by.subject })) (λ x. omega arith) refl refl
  dispatch-IsHarmless (Endpoint.review_customer decision id) =
      with_body-IsHarmless r (reason_of q.body.review) _ λ b.
        made Customers.review_failure (λ x. write_json 200 (Reply.customer x)) _ _
          (reviews v.env id decision by.subject b) (λ x. omega arith) refl refl
  dispatch-IsHarmless Endpoint.ingest_transaction = with_body-IsHarmless r q.body.transaction _ λ b.
      made Transactions.ingest_failure Transactions.ingested_response _ _
        (ingests v.env (record b { actor = by.subject; idempotency_key = q.idempotency_key }))
        low_ingested refl refl
  dispatch-IsHarmless (Endpoint.close_alert id) =
      with_body-IsHarmless r (value_of q.body.review) _ λ b.
        made Transactions.alert_failure (λ x. write_json 200 (Reply.alert x)) _ _
          (closes_alert v.env id by.subject b) (λ x. omega arith) refl refl
  dispatch-IsHarmless Endpoint.create_case = with_body-IsHarmless r q.body.investigation _ λ b.
      made Cases.create_failure (λ x. write_json 201 (Reply.investigation x)) _ _
        (opens_case v.env b.alert_id b.title b.priority by.subject) (λ x. omega arith) refl refl
  dispatch-IsHarmless (Endpoint.assign_case id) = with_body-IsHarmless r q.body.case_text _ λ b.
      made Cases.mutation_failure (λ x. write_json 200 (Reply.investigation x)) _ _
        (assigns_case v.env id b.assignee by.subject) (λ x. omega arith) refl refl
  dispatch-IsHarmless (Endpoint.comment_case id) = with_body-IsHarmless r q.body.case_text _ λ b.
      made Cases.comment_failure (λ x. write_json 201 (Reply.comment x)) _ _
        (comments_on_case v.env id b.body by.subject) (λ x. omega arith) refl refl
  dispatch-IsHarmless (Endpoint.resolve_case id) = with_body-IsHarmless r q.body.case_text _ λ b.
      made Cases.mutation_failure (λ x. write_json 200 (Reply.investigation x)) _ _
        (resolves_case v.env id b.resolution by.subject) (λ x. omega arith) refl refl
  dispatch-IsHarmless (Endpoint.update_due_diligence id) =
      with_body-IsHarmless r q.body.profile _ λ b.
        made DueDiligence.profile_failure (λ x. write_json 200 (Reply.profile x)) _ _
          (updates_profile v.env (record b { customer_id = id }) by.subject) (λ x. omega arith) refl
          refl
  dispatch-IsHarmless (Endpoint.add_beneficial_owner id) =
      with_body-IsHarmless r q.body.owner _ λ b.
        made DueDiligence.owner_failure (λ x. write_json 201 (Reply.owner x)) _ _
          (adds_owner v.env (record b { customer_id = id }) by.subject) (λ x. omega arith) refl refl
  dispatch-IsHarmless (Endpoint.add_kyc_document id) = with_body-IsHarmless r q.body.document _ λ b.
      made DueDiligence.document_failure (λ x. write_json 201 (Reply.document x)) _ _
        (adds_document v.env (record b { customer_id = id }) by.subject) (λ x. omega arith) refl
        refl
  dispatch-IsHarmless (Endpoint.review_kyc_document id) =
      with_body-IsHarmless r q.body.document_review _ λ b.
        made DueDiligence.document_review_failure (λ x. write_json 200 (Reply.document x)) _ _
          (reviews_document v.env id b by.subject) (λ x. omega arith) refl refl
  dispatch-IsHarmless (Endpoint.disposition_screening_match id) =
      with_body-IsHarmless r q.body.disposition _ λ b.
        made Screening.disposition_failure (λ x. write_json 200 (Reply.match x)) _ _
          (disposes_match v.env id b.status b.reason by.subject) (λ x. omega arith) refl refl
  dispatch-IsHarmless Endpoint.update_notification_preference =
      with_body-IsHarmless r q.body.preference _ λ b.
        made Screening.preference_failure (λ x. write_json 200 (Reply.preference x)) _ _
          (sets_preference v.env server.parse_address by.subject b.email_address b.email_enabled)
          (λ x. omega arith) refl refl
  dispatch-IsHarmless (Endpoint.read_notification id) =
      made Screening.notification_failure (λ x. write_json 200 (Reply.notification x)) _ _
        (reads_notification v.env id by.subject) (λ x. omega arith) refl refl
  dispatch-IsHarmless (Endpoint.screen_customer id) =
      answered-IsHarmless r Customers.customer_failure (λ x. write_json 201 (Reply.screening x)) _ _
        (λ x. omega arith)
        (screen_customer-IsAtomic r v.env by.subject v.provider server.webhook_url id)
  dispatch-IsHarmless (Endpoint.update_screening_schedule id) =
      with_body-IsHarmless r q.body.schedule _ λ b.
        answered-IsHarmless r Screening.configure_failure (λ x. write_json 200 (Reply.schedule x)) _
          _ (λ x. omega arith)
          (configure_schedule-IsAtomic r v.env by.subject id b.enabled b.interval_hours)

-- The same of an answer with the state of the server.
