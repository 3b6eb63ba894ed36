-- ===== src/Observability/Histogram.antt =====
-- internal/observability/metrics.go: the histograms that Middleware keeps, against the requests.
use financial_crime_complian.Common.Dict.{get, get-put}
use financial_crime_complian.Common.{
  [], ◌∷◌, String, List, ℕ, if◌then◌else◌, Option, ◌≡◌, ◌+◌, map, leb, refl, ◌%◌, length, none,
  ◌==◌, some, Bool, true, ◌⊎◌, arith, false, inl, inr, ◌∙◌, Bool-cases, ap, eq_iff,
}
use financial_crime_complian.Observability.Metrics.{
  count_buckets, new_registry, record_request, observe, HttpMetric, Registry, or_empty, word,
  http_duration_buckets, plus,
}

-- The requests by the key of their metric and their duration, the newest first.
unfoldable pub record_all : List (String × ℕ) → Registry → Registry
unfolding record_request
record_all [] r = r
record_all ((key, duration) ∷ earlier) r = record_request key duration (record_all earlier r)

-- The durations of the requests with a key.
unfoldable pub durations : String → List (String × ℕ) → List ℕ
durations key [] = []
durations key ((k, d) ∷ rest) =
    let others = durations key rest in if k == key then d ∷ others else others

abbrev pub sum : List ℕ → ℕ
sum [] = 0
sum (d ∷ ds) = d + sum ds

-- How many durations are within a boundary.
abbrev pub within : List ℕ → ℕ → ℕ
within [] boundary = 0
within (d ∷ ds) boundary = (if leb d boundary then 1 else 0) + within ds boundary

-- The histogram of a list of durations.
unfoldable pub histogram : List ℕ → HttpMetric
histogram ds = record {
  count = length ds % word;
  duration = sum ds;
  buckets = map (λ boundary. within ds boundary % word) http_duration_buckets;
}

-- A key without requests has no histogram.
unfoldable pub histogram_of : List ℕ → Option HttpMetric
unfolding histogram
histogram_of [] = none
histogram_of (d ∷ ds) = some (histogram (d ∷ ds))

tick :
    (b : Bool) (n : ℕ)
    → (if b then plus (n % word) 1 else n % word) ≡ ((if b then 1 else 0) + n) % word
tick true n = omega arith
tick false n = omega arith

count_buckets_lem :
    (d : ℕ) (ds bs : List ℕ)
    → count_buckets d bs (map (λ b. within ds b % word) bs) ≡ map (λ b. within (d ∷ ds) b % word) bs
unfolding count_buckets
count_buckets_lem d ds [] = refl
count_buckets_lem d ds (b ∷ bs) = λ i. tick (leb d b) (within ds b) i ∷ count_buckets_lem d ds bs i

observe-histogram : (d : ℕ) (ds : List ℕ) → observe d (histogram ds) ≡ histogram (d ∷ ds)
unfolding observe histogram
observe-histogram d ds =
    let counted : plus (length ds % word) 1 ≡ length (d ∷ ds) % word = omega arith in
    let summed : sum ds + d ≡ sum (d ∷ ds) = omega arith in
    λ i. record {
      count = counted i;
      duration = summed i;
      buckets = count_buckets_lem d ds http_duration_buckets i;
    }

or_empty-histogram : (ds : List ℕ) → or_empty (histogram_of ds) ≡ histogram ds
unfolding histogram_of histogram
or_empty-histogram [] = refl
or_empty-histogram (d ∷ ds) = refl

-- The metrics are the histograms of the requests: after any requests, the metric of a key counts the
-- requests with that key, and for each boundary those that took no longer, modulo 2^64; it sums
-- their durations; and a key without requests has none.
pub record_all-histogram :
    (key : String) (requests : List (String × ℕ))
    → get key (record_all requests new_registry).http ≡ histogram_of (durations key requests)
unfolding record_all durations new_registry get record_request histogram_of
record_all-histogram key [] = refl
record_all-histogram key ((k, d) ∷ rest) =
    get-put k key _ (record_all rest new_registry).http
    ∙ recorded (Bool-cases (k == key)) (record_all-histogram key rest)
  where
    recorded :
        ((k == key) ≡ true) ⊎ ((k == key) ≡ false)
        → get key (record_all rest new_registry).http ≡ histogram_of (durations key rest)
        → (if k == key
            then some (observe d (or_empty (get k (record_all rest new_registry).http)))
            else get key (record_all rest new_registry).http)
          ≡ histogram_of (if k == key then d ∷ durations key rest else durations key rest)
    recorded (inl e) ih = rw e (
        ap (λ j. some (observe d (or_empty (get j (record_all rest new_registry).http))))
          ((eq_iff k key).0 e)
        ∙ ap (λ o. some (observe d (or_empty o))) ih
        ∙ ap (λ m. some (observe d m)) (or_empty-histogram (durations key rest))
        ∙ ap some (observe-histogram d (durations key rest)))
    recorded (inr e) ih = rw e ih
