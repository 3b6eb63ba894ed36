-- ===== src/Observability/Metrics.antt =====
-- internal/observability/metrics.go: counters and histograms. A duration is in nanoseconds, where
-- the code has seconds as floats, and the counters are uint64.
use Prim.Native.String.{◌++◌, len}
use text.Mathlib.Text.{starts_with}
use financial_crime_complian.Common.{zero, suc}
use financial_crime_complian.Common.Dict.{get, Dict, put}
use financial_crime_complian.Common.{
  [], ◌∷◌, ℕ, Option, List, String, ◌*◌, Bool, ◌+◌, ◌^◌, if◌then◌else◌, some, ◌%◌, none, leb, ◌||◌,
  ltb, ◌==◌, eqb,
}
use financial_crime_complian.Domain.Errors.{Error}
use financial_crime_complian.Common.Text.{trim_space, is_empty, format_int}
use financial_crime_complian.Common.Int.{pos}

-- counter++ and counter += n, on uint64
abbrev pub word : ℕ
word = 2 ^ 64

abbrev pub plus : ℕ → ℕ → ℕ
plus a b = (a + b) % word

pub record HttpMetric : Type 0 where
  pub count : ℕ
  pub duration : ℕ
  pub buckets : List ℕ

abbrev pub millisecond : ℕ
millisecond = 1000000

abbrev pub http_duration_buckets : List ℕ
http_duration_buckets =
    5 * millisecond
    ∷ (10 * millisecond)
    ∷ (25 * millisecond)
    ∷ (50 * millisecond)
    ∷ (100 * millisecond)
    ∷ (250 * millisecond)
    ∷ (500 * millisecond)
    ∷ (1000 * millisecond)
    ∷ (2500 * millisecond)
    ∷ (5000 * millisecond)
    ∷ []

pub record Registry : Type 0 where
  pub http : Dict HttpMetric
  pub worker_runs : ℕ
  pub worker_errors : ℕ
  pub jobs_completed : ℕ
  pub delivery_runs : ℕ
  pub delivery_errors : ℕ
  pub deliveries_completed : ℕ
  pub outbox_pending : ℕ
  pub metrics_token : String

-- NewRegistry
unfoldable pub new_registry : Registry
new_registry = record {
  http = [];
  worker_runs = 0;
  worker_errors = 0;
  jobs_completed = 0;
  delivery_runs = 0;
  delivery_errors = 0;
  deliveries_completed = 0;
  outbox_pending = 0;
  metrics_token = "";
}

-- Registry.SetMetricsToken
unfoldable pub set_metrics_token : String → Registry → Registry
set_metrics_token token r = record r { metrics_token = trim_space token }

abbrev pub count_error : Option Error → ℕ → ℕ
count_error none n = n
count_error (some e) n = plus n 1

-- Registry.ObserveDelivery
unfoldable pub observe_delivery : ℕ → ℕ → Option Error → Registry → Registry
observe_delivery completed pending err r = record r {
  delivery_runs = plus r.delivery_runs 1;
  deliveries_completed = plus r.deliveries_completed completed;
  outbox_pending = pending;
  delivery_errors = count_error err r.delivery_errors;
}

-- Registry.ObserveWorker
unfoldable pub observe_worker : ℕ → Option Error → Registry → Registry
observe_worker completed err r = record r {
  worker_runs = plus r.worker_runs 1;
  jobs_completed = plus r.jobs_completed completed;
  worker_errors = count_error err r.worker_errors;
}

-- The identifier that the response carries; `fresh` is newRequestID.
unfoldable pub request_id : String → String → String
request_id fresh header =
    let id = trim_space header in if is_empty id || ltb 128 (len id) then fresh else id

-- make([]uint64, n), where there are no buckets yet
abbrev pub zeros : List ℕ → List ℕ
zeros [] = []
zeros (b ∷ bs) = 0 ∷ zeros bs

abbrev pub or_empty : Option HttpMetric → HttpMetric
or_empty none = record { count = 0; duration = 0; buckets = zeros http_duration_buckets }
or_empty (some m) = m

-- The loop over the boundaries.
unfoldable pub count_buckets : ℕ → List ℕ → List ℕ → List ℕ
count_buckets duration (boundary ∷ bs) (n ∷ ns) =
    (if leb duration boundary then plus n 1 else n) ∷ count_buckets duration bs ns
count_buckets duration bs ns = ns

unfoldable pub observe : ℕ → HttpMetric → HttpMetric
unfolding count_buckets
observe duration m = record {
  count = plus m.count 1;
  duration = m.duration + duration;
  buckets = count_buckets duration http_duration_buckets m.buckets;
}

-- The key of a metric: the method, the pattern of the route, and the status, which is 200 where the
-- handler has written none.
unfoldable pub metric_key : String → String → ℕ → String
metric_key method pattern status =
    method
    ++ "\0"
    ++ (if is_empty pattern then "unmatched" else pattern)
    ++ "\0"
    ++ format_int (pos (if eqb status 0 then 200 else status))

-- What Middleware records of a request.
unfoldable pub record_request : String → ℕ → Registry → Registry
unfolding observe
record_request key duration r = record r {
  http = put key (observe duration (or_empty (get key r.http))) r.http;
}

-- s[n:], for a text whose first n characters are ASCII
abbrev pub skip : ℕ → String → String
skip zero s = s
skip (suc n) String.[] = String.[]
skip (suc n) (String.◌∷◌ c s) = skip n s

-- strings.TrimPrefix(header, "Bearer ")
unfoldable pub trim_bearer : String → String
trim_bearer s = if starts_with s "Bearer " then skip 7 s else s

-- Whether Handler serves the metrics, or answers 401.
unfoldable pub may_read : Registry → String → Bool
unfolding trim_bearer
may_read r authorization = is_empty r.metrics_token || trim_bearer authorization == r.metrics_token
