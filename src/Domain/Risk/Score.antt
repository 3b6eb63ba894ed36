-- ===== src/Domain/Risk/Score.antt =====
-- The score of internal/domain/risk.go against a table of weights.
use financial_crime_complian.Common.{
  ℕ, ◌+◌, ◌≤◌, ◌≡◌, ◌++◌, List, [], ◌∷◌, Bool, true, false, not, arith,
}
use financial_crime_complian.Domain.Audit.{Time}
use financial_crime_complian.Domain.Customer.{CountryRisk, RiskFactors, RiskReason}
use financial_crime_complian.Domain.Risk.{
  Tally, empty_tally, add, add_if, add_country, tally, assess,
}

abbrev pub weight : Bool → ℕ → ℕ
weight true n = n
weight false n = 0

abbrev pub country_weight : CountryRisk → ℕ
country_weight CountryRisk.high = 35
country_weight CountryRisk.medium = 15
country_weight _ = 0

-- The sum of the weights of the factors that hold.
abbrev pub weights : RiskFactors → ℕ
weights f =
    country_weight f.country_risk
    + weight f.pep 35
    + weight f.sanctions_potential_match 100
    + weight f.high_risk_industry 20
    + weight f.complex_ownership 20
    + weight (not f.source_of_funds_verified) 20

-- The points of all reasons.
abbrev pub total : List RiskReason → ℕ
total [] = 0
total (r ∷ rs) = r.points + total rs

total-append : (rs ss : List RiskReason) → total (rs ++ ss) ≡ total rs + total ss
total-append [] ss = omega arith
total-append (r ∷ rs) ss = omega (arith, total-append rs ss)

abbrev IsExplained : Tally → Type 0
IsExplained t = t.score ≡ total t.reasons

module _ (points : ℕ) where
  add_if-weight :
      (b : Bool) (code detail : _) (t : Tally)
      → (add_if b code points detail t).score ≡ t.score + weight b points
  unfolding add_if add
  add_if-weight true code detail t = omega arith
  add_if-weight false code detail t = omega arith

  add_if-IsExplained :
      (b : Bool) (code detail : _) (t : Tally)
      → IsExplained t
      → IsExplained (add_if b code points detail t)
  unfolding add_if add
  add_if-IsExplained true code detail t h = omega (arith, total-append t.reasons (_ ∷ []))
  add_if-IsExplained false code detail t h = h

add_country-weight :
    (c : CountryRisk) (t : Tally) → (add_country c t).score ≡ t.score + country_weight c
unfolding add_country add
add_country-weight CountryRisk.high t = omega arith
add_country-weight _ t = omega arith

add_country-IsExplained : (c : CountryRisk) → IsExplained (add_country c empty_tally)
unfolding add_country add
add_country-IsExplained CountryRisk.high = omega arith
add_country-IsExplained _ = omega arith

tally-IsExplained : (f : RiskFactors) → IsExplained (tally f)
unfolding tally
tally-IsExplained f = add_if-IsExplained 20 _ _ _ _ (
    add_if-IsExplained 20 _ _ _ _ (
      add_if-IsExplained 20 _ _ _ _ (
        add_if-IsExplained 100 _ _ _ _
          (add_if-IsExplained 35 _ _ _ _ (add_country-IsExplained f.country_risk)))))

-- The score is the sum of the weights of the factors that hold: 35 or 15 for a high-risk or
-- medium-risk country, 35 for a PEP, 100 for a potential sanctions match, 20 each for a high-risk
-- industry, a complex ownership and an unverified source of funds.
pub score-eq-weights : (f : RiskFactors) (now : Time) → (assess f now).score ≡ weights f
unfolding assess
score-eq-weights f now = ground (arith, add_country-weight f.country_risk empty_tally)

country_weight-le : (c : CountryRisk) → country_weight c ≤ 35
country_weight-le CountryRisk.high = omega arith
country_weight-le _ = omega arith

weight-le : (b : Bool) (n : ℕ) → weight b n ≤ n
weight-le true n = omega arith
weight-le false n = omega arith

weights-le : (f : RiskFactors) → weights f ≤ 230
weights-le f = omega (arith, country_weight-le f.country_risk, weight-le)

-- The score is the sum of the points of the reasons that the assessment lists, and it is at most 230.
pub score_explained :
    (f : RiskFactors) (now : Time)
    → ((assess f now).score ≡ total (assess f now).reasons) × ((assess f now).score ≤ 230)
unfolding assess
score_explained f now = (tally-IsExplained f, omega (arith, score-eq-weights f now, weights-le f))
