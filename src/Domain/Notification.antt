-- ===== src/Domain/Notification.antt =====
-- internal/domain/notification.go and outbox.go: notifications, preferences and the outbox.
use financial_crime_complian.Common.{String, Bool, Option, List, ℕ}
use financial_crime_complian.Domain.Audit.{Time, Value}

pub record NotificationPreference : Type 0 where
  pub actor_subject : String
  pub email_address : String
  pub email_enabled : Bool
  pub updated_at : Time

pub record Notification : Type 0 where
  pub id : String
  pub customer_id : String
  pub match_id : String
  pub type : String
  pub title : String
  pub message : String
  pub read : Bool
  pub created_at : Time
  pub read_by : String
  pub read_at : Option Time

pub record OutboxMessage : Type 0 where
  pub id : String
  pub notification_id : String
  pub channel : String
  pub destination : String
  pub payload : List (String × Value)
  pub status : String
  pub attempts : ℕ
  pub next_attempt_at : Time
  pub last_error : String
  pub lease_owner : String
  pub lease_until : Option Time
  pub created_at : Time
  pub delivered_at : Option Time
