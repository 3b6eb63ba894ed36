-- ===== src/Tests/Providers.antt =====
-- A provider that answers, and one that fails, on concrete data.
use financial_crime_complian.Common.{[], ◌∷◌, ◌≡◌, ◌≤◌, refl, ℕ, arith, true, length, All, ◌+◌}
use financial_crime_complian.Common.Int.{pos}
use financial_crime_complian.Domain.Screening.{ScreeningListType}
use financial_crime_complian.Domain.Errors.{Error}
use financial_crime_complian.Effects.{ok, err}
use financial_crime_complian.Providers.Http.{
  status_error, lost, Answer, screen, got, Screening, attempts, Circuit, closed_circuit,
  circuit_open, trailing, reply_to, decoded, count_failure, reply_to_body, has_invalid,
}
use financial_crime_complian.Domain.Audit.{Time}
use financial_crime_complian.Application.Screening.Gather.{ScreeningCandidate}
use financial_crime_complian.Providers.Breaker.{IsCandidate, three_failures_open, screen-IsChecked}
use financial_crime_complian.Common.Text.{trim_space}

abbrev candidate : ScreeningCandidate
candidate = record {
  list_type = ScreeningListType.pep;
  name = "Nadia Karim";
  score = pos 92;
  reason = "name";
}

abbrev answered : ℕ → Answer
answered n = got (record { status = 200; is_json = true; body = decoded (candidate ∷ []) })

abbrev unreachable : ℕ → Answer
unreachable n = lost (Error.external "connection refused")

abbrev rejecting : ℕ → Answer
rejecting n = got (record { status = 400; is_json = true; body = trailing })

abbrev chatty : ℕ → Answer
chatty n = got (record { status = 200; is_json = true; body = trailing })

abbrev asked_at : Time → (ℕ → Answer) → Screening
asked_at t answers = record { now = t; later = t + 1; answers = answers }

passes : screen 2 50 (asked_at 10 answered) closed_circuit ≡ (ok (candidate ∷ []), closed_circuit)
unfolding screen attempts reply_to reply_to_body has_invalid trim_space
passes = refl

screen-IsChecked_example :
    (length (candidate ∷ []) ≤ 100)
    × All IsCandidate (candidate ∷ [])
    × (closed_circuit ≡ closed_circuit)
screen-IsChecked_example =
    screen-IsChecked 2 50 (asked_at 10 answered) closed_circuit closed_circuit (candidate ∷ [])
      passes

abbrev after : ℕ → Time → Circuit
after n until = record { failures = n; open_until = until }

fails_once :
    screen 0 50 (asked_at 10 unreachable) (after 0 0)
    ≡ (err (Error.external "connection refused"), after 1 0)
unfolding screen attempts reply_to count_failure
fails_once = refl

fails_twice : screen 0 50 (asked_at 20 rejecting) (after 1 0) ≡ (err (status_error 400), after 2 0)
unfolding screen attempts reply_to count_failure
fails_twice = refl

fails_thrice :
    screen 0 50 (asked_at 30 chatty) (after 2 0)
    ≡ (err (Error.external "screening provider returned trailing JSON data"), after 0 81)
unfolding screen attempts reply_to reply_to_body count_failure
fails_thrice = refl

three_failures_open_example :
    screen 0 50 (asked_at 40 answered) (after 0 81) ≡ (err circuit_open, after 0 81)
three_failures_open_example =
    three_failures_open 0 50 (asked_at 10 unreachable) (asked_at 20 rejecting) (asked_at 30 chatty)
      (asked_at 40 answered) (after 0 0) (after 1 0) (after 2 0) (after 0 81)
      (Error.external "connection refused") (status_error 400)
      (Error.external "screening provider returned trailing JSON data") refl fails_once fails_twice
      fails_thrice (omega arith) (omega arith) (omega arith) (omega arith)
