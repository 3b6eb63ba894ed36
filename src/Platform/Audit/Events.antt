-- ===== src/Platform/Audit/Events.antt =====
-- The writes of memory/repository.go that append at most one event to the audit trail.
use financial_crime_complian.Common.{String, arith, inl, inr, Option-cases}
use financial_crime_complian.Common.Dict.{get}
use financial_crime_complian.Domain.Audit.{AuditEvent}
use financial_crime_complian.Domain.Customer.{Customer, ReviewDecision}
use financial_crime_complian.Domain.Case.{InvestigationCase, CaseComment}
use financial_crime_complian.Domain.DueDiligence.{
  CddProfile, BeneficialOwner, KycDocument, DocumentStatus,
}
use financial_crime_complian.Domain.Screening.{ScreeningSchedule, ScreeningMatchStatus}
use financial_crime_complian.Memory.{Repository}
use financial_crime_complian.Memory.Customers.{review_customer, create_customer}
use financial_crime_complian.Memory.Transactions.{close_alert}
use financial_crime_complian.Memory.Cases.{create_case, assign_case, add_case_comment}
use financial_crime_complian.Memory.DueDiligence.{
  upsert_cdd_profile, add_beneficial_owner, add_kyc_document, review_kyc_document,
}
use financial_crime_complian.Memory.Schedules.{upsert_screening_schedule}
use financial_crime_complian.Memory.Screening.{disposition_screening_match}
use financial_crime_complian.Platform.Audit.{Extends-refl, Extends, OneMore, OneMore-Extends}

module _ (r : Repository) where
  abbrev pub Grows : Repository → Type 0
  Grows s = Extends r.events s.events

  pub review_customer-OneMore :
      (id : String) (d : ReviewDecision) (actor : String) (v : AuditEvent)
      → OneMore r.events id v (review_customer id d actor v r).1.events
  unfolding review_customer OneMore
  review_customer-OneMore id d actor v = ground arith

  pub close_alert-OneMore :
      (id actor reason : String) (v : AuditEvent)
      → OneMore r.events id v (close_alert id actor reason v r).1.events
  unfolding close_alert OneMore
  close_alert-OneMore id actor reason v = ground arith

  pub create_case-OneMore :
      (item : InvestigationCase) (v : AuditEvent)
      → OneMore r.events item.id v (create_case item v r).1.events
  unfolding create_case OneMore
  create_case-OneMore item v = ground arith

  pub assign_case-OneMore :
      (id to : String) (v : AuditEvent) → OneMore r.events id v (assign_case id to v r).1.events
  unfolding assign_case OneMore
  assign_case-OneMore id to v = ground arith

  pub upsert_cdd_profile-OneMore :
      (p : CddProfile) (v : AuditEvent)
      → OneMore r.events p.customer_id v (upsert_cdd_profile p v r).1.events
  unfolding upsert_cdd_profile OneMore
  upsert_cdd_profile-OneMore p v = ground arith

  pub add_beneficial_owner-OneMore :
      (o : BeneficialOwner) (v : AuditEvent)
      → OneMore r.events o.customer_id v (add_beneficial_owner o v r).1.events
  unfolding add_beneficial_owner OneMore
  add_beneficial_owner-OneMore o v = ground arith

  pub add_kyc_document-OneMore :
      (d : KycDocument) (v : AuditEvent)
      → OneMore r.events d.customer_id v (add_kyc_document d v r).1.events
  unfolding add_kyc_document OneMore
  add_kyc_document-OneMore d v = ground arith

  pub upsert_screening_schedule-OneMore :
      (s : ScreeningSchedule) (v : AuditEvent)
      → OneMore r.events s.customer_id v (upsert_screening_schedule s v r).1.events
  unfolding upsert_screening_schedule OneMore
  upsert_screening_schedule-OneMore s v = ground arith

  pub create_customer-OneMore :
      (c : Customer) (v : AuditEvent) → OneMore r.events c.id v (create_customer c v r).1.events
  unfolding create_customer OneMore
  create_customer-OneMore c v = ground arith

  pub add_case_comment-Grows : (c : CaseComment) (v : AuditEvent) → Grows (add_case_comment c v r).1
  unfolding add_case_comment OneMore
  add_case_comment-Grows c v = elim (Option-cases (get c.case_id r.cases)) [
    | inl e ↦ rw (e, add_case_comment) (Extends-refl _)
    | inr (x, e) ↦ rw (e, add_case_comment) (OneMore-Extends r.events x.id v _ (ground arith))
  ]

  pub review_kyc_document-Grows :
      (id : String) (s : DocumentStatus) (actor : String) (v : AuditEvent)
      → Grows (review_kyc_document id s actor v r).1
  unfolding review_kyc_document OneMore
  review_kyc_document-Grows id s actor v = elim (Option-cases (get id r.documents)) [
    | inl e ↦ rw (e, review_kyc_document) (Extends-refl _)
    | inr (x, e) ↦
        rw (e, review_kyc_document)
          (OneMore-Extends r.events x.customer_id (record v { aggregate_id = x.customer_id }) _
            (ground arith))
  ]

  pub disposition_screening_match-Grows :
      (id : String) (s : ScreeningMatchStatus) (reason actor : String) (v : AuditEvent)
      → Grows (disposition_screening_match id s reason actor v r).1
  unfolding disposition_screening_match OneMore
  disposition_screening_match-Grows id s reason actor v =
      elim (Option-cases (get id r.screening_matches)) [
        | inl e ↦ rw (e, disposition_screening_match) (Extends-refl _)
        | inr (x, e) ↦
            rw (e, disposition_screening_match)
              (OneMore-Extends r.events x.customer_id (record v { aggregate_id = x.customer_id }) _
                (ground arith))
      ]
