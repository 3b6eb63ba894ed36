-- ===== src/Domain/Audit.antt =====
-- internal/domain/customer.go: audit events, and the values of their payloads.
use financial_crime_complian.Common.{ℕ, String, Bool, Option, List}
use financial_crime_complian.Common.Int.{ℤ}

abbrev pub Time : Type 0
Time = ℕ

-- A value of map[string]any, of the types that the program puts there.
pub data Value : Type 0 where
  str : String → Value
  int : ℤ → Value
  flag : Bool → Value
  instant : Time → Value
  optional_instant : Option Time → Value

pub record AuditEvent : Type 0 where
  pub id : String
  pub aggregate_type : String
  pub aggregate_id : String
  pub event_type : String
  pub actor : String
  pub occurred_at : Time
  pub payload : List (String × Value)
