-- ===== src/Platform/Investigations.antt =====
-- Cases and their alerts over every history of the platform: what each write does to the two maps.
pub mod Invariant
pub mod Links
pub mod Stranded
pub mod Writes
use financial_crime_complian.Common.{
  String, List, [], ◌∷◌, ◌≡◌, true, false, any, ◌==◌, some, ◌⊎◌, ℕ,
}
use financial_crime_complian.Common.Dict.{Dict, get, put, values}
use financial_crime_complian.Domain.Transaction.{Transaction}
use financial_crime_complian.Domain.Monitoring.{Alert, AlertStatus, is_open, MonitoringFinding}
use financial_crime_complian.Domain.Case.{InvestigationCase, CaseStatus, is_resolved}
use financial_crime_complian.Application.Env.{Env}
use financial_crime_complian.Platform.{Call, ingests}
use financial_crime_complian.Application.Transactions.{IngestTransactionCommand, alerts_of}

-- The alerts of a list, stored one after the other.
pub put_all : List Alert → Dict Alert → Dict Alert
put_all [] d = d
put_all (a ∷ alerts) d = put_all alerts (put a.id a d)

-- What a write does to the cases `c` and the alerts `a`.
pub data CaseWrite (call : Call) (c : Dict InvestigationCase) (a : Dict Alert)
    : Dict InvestigationCase → Dict Alert → Type 0 where
  same :
      {c' : Dict InvestigationCase} {a' : Dict Alert} → c' ≡ c → a' ≡ a → CaseWrite call c a c' a'
  opened :
      {c' : Dict InvestigationCase} {a' : Dict Alert} (item : InvestigationCase) (al : Alert)
      → get item.alert_id a ≡ some al
      → item.customer_id ≡ al.customer_id
      → c' ≡ put item.id item c
      → a' ≡ a
      → item.status ≡ CaseStatus.open_case
      → any (λ x. x.alert_id == item.alert_id) (values c) ≡ false
      → CaseWrite call c a c' a'
  amended :
      {c' : Dict InvestigationCase} {a' : Dict Alert} (key : String) (x y : InvestigationCase)
      → get key c ≡ some x
      → (c' ≡ put key y c) ⊎ (c' ≡ put x.id y c)
      → a' ≡ a
      → y.id ≡ x.id
      → y.alert_id ≡ x.alert_id
      → y.customer_id ≡ x.customer_id
      → is_resolved y.status ≡ false
      → CaseWrite call c a c' a'
  settled :
      {c' : Dict InvestigationCase} {a' : Dict Alert} (key : String) (x y : InvestigationCase)
      (al bl : Alert)
      → get key c ≡ some x
      → get x.alert_id a ≡ some al
      → is_open al.status ≡ true
      → c' ≡ put key y c
      → a' ≡ put al.id bl a
      → y.id ≡ x.id
      → y.alert_id ≡ x.alert_id
      → y.customer_id ≡ x.customer_id
      → bl.id ≡ al.id
      → bl.customer_id ≡ al.customer_id
      → bl.status ≡ AlertStatus.closed
      → CaseWrite call c a c' a'
  closed :
      {c' : Dict InvestigationCase} {a' : Dict Alert} (key : String) (al bl : Alert)
      → get key a ≡ some al
      → c' ≡ c
      → a' ≡ put key bl a
      → bl.id ≡ al.id
      → bl.customer_id ≡ al.customer_id
      → bl.status ≡ AlertStatus.closed
      → CaseWrite call c a c' a'
  raised :
      {c' : Dict InvestigationCase} {a' : Dict Alert} (env : Env) (cmd : IngestTransactionCommand)
      (t : Transaction) (n : ℕ) (fs : List MonitoringFinding)
      → call ≡ ingests env cmd
      → c' ≡ c
      → a' ≡ put_all (alerts_of env t n fs) a
      → CaseWrite call c a c' a'
