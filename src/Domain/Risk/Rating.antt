-- ===== src/Domain/Risk/Rating.antt =====
-- The rating and the due diligence of internal/domain/risk.go.
use financial_crime_complian.Common.{
  ℕ, ◌≤◌, ◌<◌, ◌≡◌, ◌↔◌, ◌≢◌, subst, Bool, true, false, not, arith,
}
use financial_crime_complian.Domain.Audit.{Time}
use financial_crime_complian.Domain.Customer.{RiskRating, DueDiligence, RiskFactors}
use financial_crime_complian.Domain.Risk.{classify, assess}
use financial_crime_complian.Domain.Risk.Score.{weight, country_weight, weights, score-eq-weights}

abbrev pub rank : RiskRating → ℕ
rank RiskRating.low = 0
rank RiskRating.medium = 1
rank RiskRating.high = 2

abbrev pub strictness : DueDiligence → ℕ
strictness DueDiligence.standard = 0
strictness DueDiligence.enhanced = 1
strictness DueDiligence.blocked = 2

abbrev pub Implies : Bool → Bool → Type 0
Implies true false = ⊥
Implies _ _ = Unit

-- `g` has each risk factor that `f` has, and a country risk that weighs as much or more.
pub record IsRiskier (f g : RiskFactors) : Type 0 where
  pub country : country_weight f.country_risk ≤ country_weight g.country_risk
  pub pep : Implies f.pep g.pep
  pub sanctions : Implies f.sanctions_potential_match g.sanctions_potential_match
  pub industry : Implies f.high_risk_industry g.high_risk_industry
  pub ownership : Implies f.complex_ownership g.complex_ownership
  pub funds : Implies g.source_of_funds_verified f.source_of_funds_verified

weight_mono : (b c : Bool) (n : ℕ) → Implies b c → weight b n ≤ weight c n
weight_mono true true n h = omega arith
weight_mono true false n h = absurd h
weight_mono false _ n h = omega arith

weight-not_mono : (b c : Bool) (n : ℕ) → Implies c b → weight (not b) n ≤ weight (not c) n
weight-not_mono true _ n h = omega arith
weight-not_mono false true n h = absurd h
weight-not_mono false false n h = omega arith

weights_mono : {f g : RiskFactors} → IsRiskier f g → weights f ≤ weights g
weights_mono {f} {g} h = omega (
  arith,
  h.country,
  weight_mono f.pep g.pep 35 h.pep,
  weight_mono f.sanctions_potential_match g.sanctions_potential_match 100 h.sanctions,
  weight_mono f.high_risk_industry g.high_risk_industry 20 h.industry,
  weight_mono f.complex_ownership g.complex_ownership 20 h.ownership,
  weight-not_mono f.source_of_funds_verified g.source_of_funds_verified 20 h.funds,
)

classify_mono :
    (s t : Bool) (m n : ℕ)
    → Implies s t
    → m ≤ n
    → (rank (classify s m).0 ≤ rank (classify t n).0)
      × (strictness (classify s m).1 ≤ strictness (classify t n).1)
unfolding classify
classify_mono true true m n h k = ground arith
classify_mono true false m n h k = absurd h
classify_mono false true m n h k = ground arith
classify_mono false false m n h k = ground arith

-- More risk never lowers an assessment: if `g` has every risk factor of `f`, then its score, its
-- rating and its due diligence are at least those of `f`.
pub assess_mono :
    (f g : RiskFactors) (now : Time)
    → IsRiskier f g
    → ((assess f now).score ≤ (assess g now).score)
      × (rank (assess f now).rating ≤ rank (assess g now).rating)
      × (strictness (assess f now).due_diligence ≤ strictness (assess g now).due_diligence)
unfolding assess
assess_mono f g now h =
    let up : (assess f now).score ≤ (assess g now).score =
      omega (arith, score-eq-weights f now, score-eq-weights g now, weights_mono h) in
    let c =
      classify_mono f.sanctions_potential_match g.sanctions_potential_match _ _ h.sanctions up in
    (up, c.0, c.1)

-- What the rating and the due diligence say of a sanctions match `s` and a sum of weights `n`.
pub record IsGraded (s : Bool) (n : ℕ) (rating : RiskRating) (d : DueDiligence) : Type 0 where
  pub blocked_iff : (d ≡ DueDiligence.blocked) ↔ (s ≡ true)
  pub enhanced_iff : (d ≡ DueDiligence.enhanced) ↔ ((s ≡ false) × (50 ≤ n))
  pub high_iff : (rating ≡ RiskRating.high) ↔ (d ≢ DueDiligence.standard)
  pub low_iff : (rating ≡ RiskRating.low) ↔ ((s ≡ false) × (n < 20))

classify-IsGraded : (s : Bool) (n : ℕ) → IsGraded s n (classify s n).0 (classify s n).1
unfolding classify
classify-IsGraded true n = ground arith
classify-IsGraded false n = ground arith

-- The assessment is decided by the weights of the factors: due diligence is blocked exactly on a
-- potential sanctions match, and enhanced exactly if there is none and the weights reach 50; the
-- rating is high exactly where due diligence is not standard, and low exactly if there is no
-- sanctions match and the weights stay below 20.
pub assess-IsGraded :
    (f : RiskFactors) (now : Time)
    → IsGraded f.sanctions_potential_match
        (weights f)
        (assess f now).rating
        (assess f now).due_diligence
unfolding assess
assess-IsGraded f now =
    subst
      (λ n.
        IsGraded f.sanctions_potential_match n (assess f now).rating (assess f now).due_diligence)
      (score-eq-weights f now) (classify-IsGraded f.sanctions_potential_match (assess f now).score)
