-- ===== src/Tests/Security.antt =====
-- The rate limiter, on concrete data: one token every three seconds, and a bucket of two.
use financial_crime_complian.Security.Waiting.{waiting_client_passes}
use financial_crime_complian.Security.Limits.{passed, passed_bounds}
use financial_crime_complian.Security.Budget.{FillsUp}
use financial_crime_complian.Common.Dict.{get, put, keys, remove}
use mathlib.Core.Option.{some-injective}
use financial_crime_complian.Security.Limiter.{
  new_rate_limiter, allow, RateLimiter, token, prune, second, refill, take_token, Bucket, drop_idle,
}
use financial_crime_complian.Common.{
  ◌*◌, arith, List, ◌≡◌, ◌∷◌, String, [], refl, ◌+◌, ◌≤◌, ◌-◌, true, some, subst,
}
use financial_crime_complian.Domain.Audit.{Time}

abbrev limiter : RateLimiter
limiter = record { clients = []; rate = 20; scale = 60; burst = 2 * (60 * second); last_prune = 0 }

is_new : new_rate_limiter 20 60 2 ≡ limiter
unfolding new_rate_limiter
is_new = refl

abbrev burst_of_a : List (String × Time)
burst_of_a = ("a", 1) ∷ ("a", 2) ∷ ("b", 2) ∷ ("a", 3) ∷ []

two_pass : passed "a" limiter burst_of_a ≡ 2
unfolding passed allow prune refill take_token get put drop_idle keys remove
two_pass = refl

fills_up : FillsUp limiter
fills_up = omega arith

passed_bounds_example :
    passed "a" limiter burst_of_a * token limiter ≤ limiter.burst + limiter.rate * (3 - 1)
passed_bounds_example =
    passed_bounds "a" limiter 1 3 burst_of_a fills_up
      (omega arith, (omega arith, (omega arith, (omega arith, omega arith))))

-- The bucket of a client is empty, and three seconds have gone by.
abbrev emptied : RateLimiter
emptied = record limiter { clients = ("a", record { tokens = 0; updated = 5 }) ∷ [] }

waited :
    (item : Bucket)
    → get "a" emptied.clients ≡ some item
    → token emptied ≤ emptied.rate * (3 * second + 5 - item.updated)
unfolding get
waited item e =
    subst (λ b. token emptied ≤ emptied.rate * (3 * second + 5 - b.updated))
      (some-injective _ item e) (omega arith)

waiting_client_passes_example : (allow "a" (3 * second + 5) emptied).0 ≡ true
waiting_client_passes_example =
    waiting_client_passes "a" emptied (3 * second + 5) (omega arith) waited
