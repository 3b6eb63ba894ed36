-- ===== src/Tests/Domain.antt =====
-- The domain rules on concrete data.
use financial_crime_complian.Common.{◌≡◌, ◌↔◌, ◌≤◌, refl, true, false, arith}
use financial_crime_complian.Domain.Monitoring.Rules.{IsMonitored, evaluate-IsMonitored}
use financial_crime_complian.Domain.Transaction.{
  same_ingestion_payload, SamePayload, same_ingestion_payload_iff,
}
use financial_crime_complian.Domain.Risk.{assess}
use financial_crime_complian.Domain.Risk.Rating.{
  IsGraded, assess-IsGraded, rank, strictness, assess_mono,
}
use financial_crime_complian.Tests.Fixtures.{risky, riskier, payment_env, payment, retry_env}
use financial_crime_complian.Domain.Risk.Score.{weights, score-eq-weights, total, score_explained}
use financial_crime_complian.Application.Transactions.{to_transaction}
use financial_crime_complian.Domain.Monitoring.{evaluate}

score-eq-weights_example : (assess risky 10).score ≡ weights risky
score-eq-weights_example = score-eq-weights risky 10

score_explained_example :
    ((assess risky 10).score ≡ total (assess risky 10).reasons) × ((assess risky 10).score ≤ 230)
score_explained_example = score_explained risky 10

score_of_risky : (assess risky 10).score ≡ 70
unfolding assess
score_of_risky = refl

assess_mono_example :
    ((assess risky 10).score ≤ (assess riskier 10).score)
    × (rank (assess risky 10).rating ≤ rank (assess riskier 10).rating)
    × (strictness (assess risky 10).due_diligence ≤ strictness (assess riskier 10).due_diligence)
assess_mono_example = assess_mono risky riskier 10 (record {
  country = omega arith;
  pep = tt;
  sanctions = tt;
  industry = tt;
  ownership = tt;
  funds = tt;
})

assess-IsGraded_example :
    IsGraded false (weights risky) (assess risky 10).rating (assess risky 10).due_diligence
assess-IsGraded_example = assess-IsGraded risky 10

same_ingestion_payload_iff_example :
    (same_ingestion_payload (to_transaction payment_env payment) (to_transaction retry_env payment)
      ≡ true)
    ↔ SamePayload (to_transaction payment_env payment) (to_transaction retry_env payment)
same_ingestion_payload_iff_example =
    same_ingestion_payload_iff (to_transaction payment_env payment)
      (to_transaction retry_env payment)

evaluate-IsMonitored_example :
    IsMonitored (to_transaction payment_env payment) (evaluate (to_transaction payment_env payment))
evaluate-IsMonitored_example = evaluate-IsMonitored (to_transaction payment_env payment)
