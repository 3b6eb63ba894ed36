-- ===== src/Domain/Monitoring/Rules.antt =====
-- Which findings internal/domain/monitoring.go makes of a transaction.
use financial_crime_complian.Common.{
  ◌≤◌, ◌≡◌, ◌↔◌, ◌⊎◌, String, List, Bool, true, ◌==◌, ◌+◌, [], ◌∷◌, ℕ, if◌then◌else◌, any, length,
  arith, eq_iff,
}
use financial_crime_complian.Common.Int.{ℤ, pos, negsuc}
use financial_crime_complian.Domain.Transaction.{Transaction}
use financial_crime_complian.Domain.Monitoring.{
  MonitoringFinding, is_large, high_risk_counterparty_country, evaluate,
}

-- The finding of the rule `code` is among the findings.
abbrev pub has_rule : String → List MonitoringFinding → Bool
has_rule code = any (λ f. f.rule_code == code)

-- How many findings the rule `code` has among the findings.
abbrev pub count_rule : String → List MonitoringFinding → ℕ
count_rule code [] = 0
count_rule code (f ∷ fs) = (if f.rule_code == code then 1 else 0) + count_rule code fs

-- The amount is a million minor units or more.
abbrev pub IsLarge : ℤ → Type 0
IsLarge (pos n) = 1000000 ≤ n
IsLarge (negsuc n) = ⊥

abbrev pub IsHighRisk : String → Type 0
IsHighRisk c = (c ≡ "IR") ⊎ (c ≡ "KP") ⊎ (c ≡ "SY")

is_large_iff : (z : ℤ) → (is_large z ≡ true) ↔ IsLarge z
is_large_iff (pos n) = ground arith
is_large_iff (negsuc n) = ground arith

high_risk_counterparty_country-IsHighRisk :
    (c : String) → (high_risk_counterparty_country c ≡ true) ↔ IsHighRisk c
high_risk_counterparty_country-IsHighRisk c =
    ground (arith, eq_iff c "IR", eq_iff c "KP", eq_iff c "SY")

-- The findings of a transaction by its amount and the country of its counterparty.
pub record IsMonitored (t : Transaction) (fs : List MonitoringFinding) : Type 0 where
  pub large_iff : (has_rule "large_transaction" fs ≡ true) ↔ IsLarge t.amount_minor
  pub country_iff :
      (has_rule "high_risk_counterparty_country" fs ≡ true) ↔ IsHighRisk t.counterparty_country
  pub large_once : count_rule "large_transaction" fs ≤ 1
  pub country_once : count_rule "high_risk_counterparty_country" fs ≤ 1
  pub nothing_else :
      length fs ≡ count_rule "large_transaction" fs + count_rule "high_risk_counterparty_country" fs

evaluate_by_tests :
    (t : Transaction)
    → (has_rule "large_transaction" (evaluate t) ≡ is_large t.amount_minor)
      × (has_rule "high_risk_counterparty_country" (evaluate t)
          ≡ high_risk_counterparty_country t.counterparty_country)
      × (count_rule "large_transaction" (evaluate t) ≤ 1)
      × (count_rule "high_risk_counterparty_country" (evaluate t) ≤ 1)
      × (length (evaluate t)
          ≡ count_rule "large_transaction" (evaluate t)
            + count_rule "high_risk_counterparty_country" (evaluate t))
unfolding evaluate
evaluate_by_tests t = ground arith

-- The engine raises the large-transaction rule exactly on an amount of a million minor units or
-- more, and the country rule exactly on a counterparty in IR, KP or SY; it raises each of the two at
-- most once, and no other rule.
pub evaluate-IsMonitored : (t : Transaction) → IsMonitored t (evaluate t)
evaluate-IsMonitored t =
    let e = evaluate_by_tests t in
    record {
      large_iff = rw (e.0) (is_large_iff t.amount_minor);
      country_iff = rw (e.1) (high_risk_counterparty_country-IsHighRisk t.counterparty_country);
      large_once = e.2;
      country_once = e.3;
      nothing_else = e.4;
    }
