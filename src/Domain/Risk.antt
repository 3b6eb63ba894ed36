-- ===== src/Domain/Risk.antt =====
-- internal/domain/risk.go: the customer risk engine.
pub mod Score
pub mod Rating
use financial_crime_complian.Common.{
  ℕ, ◌+◌, String, List, [], ◌∷◌, ◌++◌, Bool, not, leb, if◌then◌else◌,
}
use financial_crime_complian.Domain.Audit.{Time}
use financial_crime_complian.Domain.Customer.{
  CountryRisk, RiskRating, DueDiligence, RiskFactors, RiskReason, RiskAssessment,
}

abbrev pub risk_rule_version : String
risk_rule_version = "customer-risk-v1"

-- The two fields of `result` that the closure `add` writes.
pub record Tally : Type 0 where
  pub score : ℕ
  pub reasons : List RiskReason

abbrev pub empty_tally : Tally
empty_tally = record { score = 0; reasons = [] }

-- add(code, points, detail)
pub add : String → ℕ → String → Tally → Tally
add code points detail t = record {
  score = t.score + points;
  reasons = t.reasons ++ record { code = code; points = points; detail = detail } ∷ [];
}

-- if b { add(code, points, detail) }
pub add_if : Bool → String → ℕ → String → Tally → Tally
add_if b code points detail t = if b then add code points detail t else t

pub add_country : CountryRisk → Tally → Tally
add_country CountryRisk.high =
    add "HIGH_RISK_COUNTRY" 35 "Customer is associated with a high-risk country"
add_country CountryRisk.medium =
    add "MEDIUM_RISK_COUNTRY" 15 "Customer is associated with a medium-risk country"
add_country _ = λ t. t

-- The body of Assess up to its last switch.
pub tally : RiskFactors → Tally
tally f =
    add_if (not f.source_of_funds_verified) "SOURCE_OF_FUNDS_UNVERIFIED" 20
      "Source of funds has not been verified"
      (add_if f.complex_ownership "COMPLEX_OWNERSHIP" 20
        "Ownership structure requires additional verification"
        (add_if f.high_risk_industry "HIGH_RISK_INDUSTRY" 20
          "Customer operates in a higher-risk industry"
          (add_if f.sanctions_potential_match "SANCTIONS_POTENTIAL_MATCH" 100
            "Potential sanctions match requires human review"
            (add_if f.pep "PEP" 35 "Customer is a politically exposed person"
              (add_country f.country_risk empty_tally)))))

-- The last switch of Assess.
pub classify : Bool → ℕ → RiskRating × DueDiligence
classify sanctions score =
    if sanctions
    then (RiskRating.high, DueDiligence.blocked)
    else if leb 50 score
    then (RiskRating.high, DueDiligence.enhanced)
    else if leb 20 score
    then (RiskRating.medium, DueDiligence.standard)
    else (RiskRating.low, DueDiligence.standard)

-- RiskEngine.Assess
unfoldable pub assess : RiskFactors → Time → RiskAssessment
unfolding add add_if add_country tally classify
assess f now =
    let t = tally f in
    let (rating, due_diligence) = classify f.sanctions_potential_match t.score in
    record {
      score = t.score;
      rating = rating;
      due_diligence = due_diligence;
      reasons = t.reasons;
      assessed_at = now;
      rule_version = risk_rule_version;
    }
