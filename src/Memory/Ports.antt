-- ===== src/Memory/Ports.antt =====
-- memory/repository.go fills each interface of internal/application.
use financial_crime_complian.Application.Onboarding.{CustomerRepository}
use financial_crime_complian.Application.Transactions.{TransactionRepository}
use financial_crime_complian.Application.Cases.{CaseRepository}
use financial_crime_complian.Application.DueDiligence.{DueDiligenceRepository}
use financial_crime_complian.Application.Screening.{ScreeningRepository}
use financial_crime_complian.Application.Queries.{ReadRepository}
use financial_crime_complian.Memory.{Repository}
use financial_crime_complian.Memory.Customers
use financial_crime_complian.Memory.Transactions
use financial_crime_complian.Memory.Cases
use financial_crime_complian.Memory.DueDiligence
use financial_crime_complian.Memory.Screening
use financial_crime_complian.Memory.Schedules
use financial_crime_complian.Memory.Notifications
use financial_crime_complian.Memory.Pages

abbrev pub customer_port : CustomerRepository Repository
customer_port = record {
  create_customer = Customers.create_customer;
  list_audit_events = Customers.list_audit_events;
  review_customer = Customers.review_customer;
}

abbrev pub transaction_port : TransactionRepository Repository
transaction_port = record {
  create_transaction = Transactions.create_transaction;
  list_alerts = Transactions.list_alerts;
  close_alert = Transactions.close_alert;
}

abbrev pub case_port : CaseRepository Repository
case_port = record {
  create_case = Cases.create_case;
  get_case = Cases.get_case;
  list_case_comments = Cases.list_case_comments;
  list_audit_events = Customers.list_audit_events;
  assign_case = Cases.assign_case;
  add_case_comment = Cases.add_case_comment;
  resolve_case = Cases.resolve_case;
}

abbrev pub due_diligence_port : DueDiligenceRepository Repository
due_diligence_port = record {
  get_due_diligence = DueDiligence.get_due_diligence;
  upsert_cdd_profile = DueDiligence.upsert_cdd_profile;
  add_beneficial_owner = DueDiligence.add_beneficial_owner;
  add_kyc_document = DueDiligence.add_kyc_document;
  review_kyc_document = DueDiligence.review_kyc_document;
}

abbrev pub screening_port : ScreeningRepository Repository
screening_port = record {
  get_customer = Customers.get_customer;
  get_due_diligence = DueDiligence.get_due_diligence;
  save_screening = Screening.save_screening;
  list_screening_matches = Screening.list_screening_matches;
  disposition_screening_match = Screening.disposition_screening_match;
  upsert_screening_schedule = Schedules.upsert_screening_schedule;
  get_screening_schedule = Schedules.get_screening_schedule;
  claim_due_screening_schedules = Schedules.claim_due_screening_schedules;
  complete_screening_schedule = Schedules.complete_screening_schedule;
  list_notifications = Notifications.list_notifications;
  read_notification = Notifications.read_notification;
  get_notification_preference = Notifications.get_notification_preference;
  upsert_notification_preference = Notifications.upsert_notification_preference;
  list_email_notification_recipients = Notifications.list_email_notification_recipients;
}

abbrev pub read_port : ReadRepository Repository
read_port = record {
  get_customer = Customers.get_customer;
  list_customers = Pages.list_customers;
  list_customer_transactions = Pages.list_customer_transactions;
  list_audit_events_page = Pages.list_audit_events_page;
  list_customer_activity_page = Pages.list_customer_activity_page;
  list_alerts_page = Pages.list_alerts_page;
  list_cases_page = Pages.list_cases_page;
}
