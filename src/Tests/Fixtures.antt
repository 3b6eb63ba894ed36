-- ===== src/Tests/Fixtures.antt =====
-- A maker, a checker, one customer, one transaction, one alert and one case.
use financial_crime_complian.Domain.Case.{CasePriority}
use financial_crime_complian.Common.{List, [], ◌∷◌, true, false, none, ℕ, zero, suc, String}
use financial_crime_complian.Common.Int.{pos}
use financial_crime_complian.Domain.Transaction.{TransactionDirection}
use financial_crime_complian.Application.Transactions.{IngestTransactionCommand}
use financial_crime_complian.Domain.Screening.{ScreeningSchedule}
use financial_crime_complian.Application.Env.{Env}
use financial_crime_complian.Domain.Audit.{Time, AuditEvent}
use financial_crime_complian.Domain.Customer.{
  RiskFactors, CountryRisk, CustomerType, ReviewDecision,
}
use financial_crime_complian.Memory.{Repository, new_repository}
use financial_crime_complian.Application.Onboarding.{OnboardCustomerCommand}
use Prim.Native.String.{[], ◌∷◌}
use financial_crime_complian.Platform.{Call, onboards, reviews, ingests, opens_case, resolves_case}

abbrev pub pick : List String → ℕ → String
pick [] n = ""
pick (id ∷ ids) zero = id
pick (id ∷ ids) (suc n) = pick ids n

abbrev pub env_of : Time → List String → Env
env_of now ids = record { now = now; new_id = pick ids; wide = λ c. c }

abbrev pub risky : RiskFactors
risky = record {
  country_risk = CountryRisk.high;
  pep = true;
  sanctions_potential_match = false;
  high_risk_industry = false;
  complex_ownership = false;
  source_of_funds_verified = true;
}

abbrev pub riskier : RiskFactors
riskier = record risky { sanctions_potential_match = true }

abbrev pub onboarding : OnboardCustomerCommand
onboarding = record {
  external_ref = "crm-7";
  type = CustomerType.company;
  legal_name = " Acme ";
  country_code = "de";
  risk_factors = risky;
  actor = "maker";
}

abbrev pub payment : IngestTransactionCommand
payment = record {
  external_ref = "ext-1";
  customer_id = "c1";
  direction = TransactionDirection.outbound;
  amount_minor = pos 2000000;
  currency = "eur";
  counterparty_country = "ir";
  occurred_at = 5000;
  actor = "teller";
  idempotency_key = "key-1";
}

abbrev pub onboard_env : Env
onboard_env = env_of 10 ("c1" ∷ "e1" ∷ [])

abbrev pub review_env : Env
review_env = env_of 20 ("e2" ∷ [])

abbrev pub payment_env : Env
payment_env = env_of 30 ("t1" ∷ "e3" ∷ "a1" ∷ "e4" ∷ "a2" ∷ "e5" ∷ [])

abbrev pub retry_env : Env
retry_env = env_of 35 ("t2" ∷ "e6" ∷ "a3" ∷ "e7" ∷ "a4" ∷ "e8" ∷ [])

abbrev pub case_env : Env
case_env = env_of 40 ("k1" ∷ "e9" ∷ [])

abbrev pub resolve_env : Env
resolve_env = env_of 50 ("e10" ∷ "e11" ∷ [])

-- A customer that is approved.
abbrev pub approval : List Call
approval =
    onboards onboard_env onboarding
    ∷ reviews review_env "c1" ReviewDecision.approve "checker" "complete"
    ∷ []

-- A payment of that customer that raises two alerts, the first of which is investigated.
abbrev pub investigation : List Call
investigation =
    onboards onboard_env onboarding
    ∷ reviews review_env "c1" ReviewDecision.approve "checker" "complete"
    ∷ ingests payment_env payment
    ∷ opens_case case_env "a1" "Large payment" CasePriority.high "analyst"
    ∷ resolves_case resolve_env "k1" "No further action" "analyst"
    ∷ []

abbrev pub event : AuditEvent
event = record {
  id = "e0";
  aggregate_type = "alert";
  aggregate_id = "a1";
  event_type = "alert.closed";
  actor = "analyst";
  occurred_at = 60;
  payload = [];
}

abbrev pub schedule : ScreeningSchedule
schedule = record {
  customer_id = "c1";
  enabled = true;
  interval_hours = 24;
  next_run_at = 100;
  last_run_at = none;
  last_error = "";
  failure_count = 0;
  lease_owner = "";
  lease_until = none;
  updated_by = "analyst";
  updated_at = 10;
}

abbrev pub scheduled : Repository
scheduled = record new_repository { screening_schedules = ("c1", schedule) ∷ [] }
