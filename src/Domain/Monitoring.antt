-- ===== src/Domain/Monitoring.antt =====
-- internal/domain/monitoring.go: alerts and the transaction monitoring engine.
use Prim.Native.String.{◌++◌}
use financial_crime_complian.Common.{
  String, Bool, true, false, ◌||◌, ◌==◌, Option, List, [], ◌∷◌, leb, if◌then◌else◌,
}
use financial_crime_complian.Common.Int.{ℤ, pos, negsuc}
use financial_crime_complian.Common.Text.{format_int}
use financial_crime_complian.Domain.Audit.{Time}
use financial_crime_complian.Domain.Transaction.{Transaction}
pub mod Rules

abbrev pub transaction_monitoring_rule_version : String
transaction_monitoring_rule_version = "transaction-monitoring-v1"

pub data AlertSeverity : Type 0 where
  medium high : AlertSeverity

pub data AlertStatus : Type 0 where
  open_alert closed : AlertStatus
  other : String → AlertStatus

abbrev pub status_eq : AlertStatus → AlertStatus → Bool
status_eq AlertStatus.open_alert AlertStatus.open_alert = true
status_eq AlertStatus.closed AlertStatus.closed = true
status_eq (AlertStatus.other s) (AlertStatus.other t) = s == t
status_eq _ _ = false

abbrev pub is_open : AlertStatus → Bool
is_open AlertStatus.open_alert = true
is_open _ = false

pub record MonitoringFinding : Type 0 where
  pub rule_code : String
  pub rule_version : String
  pub severity : AlertSeverity
  pub reason_code : String
  pub description : String

pub record Alert : Type 0 where
  pub id : String
  pub transaction_id : String
  pub customer_id : String
  pub rule_code : String
  pub rule_version : String
  pub severity : AlertSeverity
  pub status : AlertStatus
  pub reason_code : String
  pub description : String
  pub created_at : Time
  pub closed_at : Option Time
  pub closed_by : String
  pub closure_reason : String

-- amount >= 1_000_000
abbrev pub is_large : ℤ → Bool
is_large (pos n) = leb 1000000 n
is_large (negsuc n) = false

-- highRiskCounterpartyCountries[country]
abbrev pub high_risk_counterparty_country : String → Bool
high_risk_counterparty_country c = c == "IR" || c == "KP" || c == "SY"

pub large_finding : Transaction → MonitoringFinding
unfolding format_int
large_finding t = record {
  rule_code = "large_transaction";
  rule_version = transaction_monitoring_rule_version;
  severity = AlertSeverity.high;
  reason_code = "amount_threshold_exceeded";
  description =
      "Transaction amount "
      ++ format_int t.amount_minor
      ++ " minor units meets or exceeds the 1000000 threshold";
}

pub country_finding : Transaction → MonitoringFinding
country_finding t = record {
  rule_code = "high_risk_counterparty_country";
  rule_version = transaction_monitoring_rule_version;
  severity = AlertSeverity.high;
  reason_code = "counterparty_country_high_risk";
  description = "Counterparty country " ++ t.counterparty_country ++ " is configured as high risk";
}

-- TransactionMonitoringEngine.Evaluate
unfoldable pub evaluate : Transaction → List MonitoringFinding
unfolding large_finding country_finding
evaluate t =
    let rest =
      if high_risk_counterparty_country t.counterparty_country
      then country_finding t ∷ []
      else [] in
    if is_large t.amount_minor then large_finding t ∷ rest else rest
