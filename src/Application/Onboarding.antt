-- ===== src/Application/Onboarding.antt =====
-- internal/application/onboarding.go: customers are submitted, and approved or rejected.
use Prim.Native.String.{len}
use financial_crime_complian.Common.{String, List, [], ◌∷◌, none, Bool, true, false, not, ◌||◌, eqb}
use financial_crime_complian.Common.Int.{pos}
use financial_crime_complian.Common.Text.{is_empty, trim_space}
use financial_crime_complian.Domain.Errors.{Error}
use financial_crime_complian.Domain.Audit.{AuditEvent, Value, str, int}
use financial_crime_complian.Domain.Customer.{
  Customer, CustomerType, CustomerStatus, CountryRisk, ReviewDecision, RiskFactors, RiskAssessment,
  rating_text, due_diligence_text,
}
use financial_crime_complian.Domain.Risk.{assess}
use financial_crime_complian.Effects.{Exec, refuse_if, pure, raise, ◌>>=◌, ◌>>◌}
use financial_crime_complian.Application.Env.{Env, upper_trim}

-- The interface Repository.
pub record CustomerRepository (S : Type 0) : Type 0 where
  pub create_customer : Customer → AuditEvent → Exec S Unit
  pub list_audit_events : String → Exec S (List AuditEvent)
  pub review_customer : String → ReviewDecision → String → AuditEvent → Exec S Customer

pub record OnboardCustomerCommand : Type 0 where
  pub external_ref : String
  pub type : CustomerType
  pub legal_name : String
  pub country_code : String
  pub risk_factors : RiskFactors
  pub actor : String

abbrev pub is_customer_type : CustomerType → Bool
is_customer_type (CustomerType.other _) = false
is_customer_type _ = true

abbrev pub is_country_risk : CountryRisk → Bool
is_country_risk (CountryRisk.other _) = false
is_country_risk _ = true

abbrev pub is_decision : ReviewDecision → Bool
is_decision (ReviewDecision.other _) = false
is_decision _ = true

-- The checks of Onboard; the one on the actor comes last in the source and fails alike.
abbrev pub is_invalid_command : Env → OnboardCustomerCommand → Bool
is_invalid_command env cmd =
    is_empty (trim_space cmd.legal_name)
    || not (eqb (len (upper_trim env cmd.country_code)) 2)
    || not (is_customer_type cmd.type)
    || not (is_country_risk cmd.risk_factors.country_risk)
    || is_empty (trim_space cmd.actor)

-- The customer that Onboard stores.
unfoldable pub submitted : Env → OnboardCustomerCommand → Customer
submitted env cmd = record {
  id = env.new_id 0;
  external_ref = trim_space cmd.external_ref;
  type = cmd.type;
  legal_name = trim_space cmd.legal_name;
  country_code = upper_trim env cmd.country_code;
  risk_factors = cmd.risk_factors;
  risk_assessment = assess cmd.risk_factors env.now;
  status = CustomerStatus.pending_approval;
  created_by = trim_space cmd.actor;
  reviewed_by = "";
  reviewed_at = none;
  created_at = env.now;
}

abbrev pub submitted_payload : RiskAssessment → List (String × Value)
submitted_payload a =
    ("risk_score", int (pos a.score))
    ∷ ("risk_rating", str (rating_text a.rating))
    ∷ ("due_diligence", str (due_diligence_text a.due_diligence))
    ∷ ("rule_version", str a.rule_version)
    ∷ []

unfoldable pub submitted_event : Env → Customer → AuditEvent
submitted_event env customer = record {
  id = env.new_id 1;
  aggregate_type = "customer";
  aggregate_id = customer.id;
  event_type = "customer.submitted";
  actor = customer.created_by;
  occurred_at = env.now;
  payload = submitted_payload customer.risk_assessment;
}

abbrev pub review_event_type : ReviewDecision → String
review_event_type ReviewDecision.reject = "customer.rejected"
review_event_type _ = "customer.approved"

unfoldable pub review_event : Env → String → ReviewDecision → String → String → AuditEvent
review_event env customer_id decision actor reason = record {
  id = env.new_id 0;
  aggregate_type = "customer";
  aggregate_id = customer_id;
  event_type = review_event_type decision;
  actor = actor;
  occurred_at = env.now;
  payload = ("reason", str reason) ∷ [];
}

module _ {S : Type 0} (repo : CustomerRepository S) (env : Env) where
  -- OnboardingService.Onboard
  unfoldable pub onboard : OnboardCustomerCommand → Exec S Customer
  unfolding submitted submitted_event ◌>>=◌
  onboard cmd = refuse_if (is_invalid_command env cmd) Error.invalid_customer do
    repo.create_customer (submitted env cmd) (submitted_event env (submitted env cmd))
    pure (submitted env cmd)

  -- OnboardingService.Review
  unfoldable pub review : String → ReviewDecision → String → String → Exec S Customer
  unfolding review_event raise
  review customer_id decision actor reason =
      let id = trim_space customer_id in
      let by = trim_space actor in
      refuse_if (is_empty id || is_empty by || not (is_decision decision)) Error.invalid_customer
        (repo.review_customer id decision by (review_event env id decision by (trim_space reason)))
