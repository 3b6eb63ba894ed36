-- ===== src/Tests/Metrics.antt =====
-- The metrics, on concrete data.
use financial_crime_complian.Common.Dict.{get, put}
use financial_crime_complian.Observability.Histogram.{
  record_all, durations, histogram_of, record_all-histogram,
}
use financial_crime_complian.Observability.Metrics.{
  new_registry, record_request, observe, count_buckets, millisecond,
}
use financial_crime_complian.Common.{List, String, ◌≡◌, ℕ, ◌*◌, some, ◌∷◌, [], refl}

abbrev requests : List (String × ℕ)
requests = ("a", 3 * millisecond) ∷ ("b", 7) ∷ ("a", 7 * millisecond) ∷ []

two_buckets :
    get "a" (record_all requests new_registry).http
    ≡ some (record {
      count = 2;
      duration = 10 * millisecond;
      buckets = 1 ∷ 2 ∷ 2 ∷ 2 ∷ 2 ∷ 2 ∷ 2 ∷ 2 ∷ 2 ∷ 2 ∷ [];
    })
unfolding record_all record_request observe count_buckets new_registry get put
two_buckets = refl

record_all-histogram_example :
    get "a" (record_all requests new_registry).http ≡ histogram_of (durations "a" requests)
record_all-histogram_example = record_all-histogram "a" requests
