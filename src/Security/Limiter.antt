-- ===== src/Security/Limiter.antt =====
-- internal/security/http.go: a token bucket for each client. The rate is a fraction of tokens in a
-- second, `rate / scale`, and tokens are counted in units of which `scale * second` make one token,
-- so that what the code does with floats is exact here: its rounding is left out.
use financial_crime_complian.Common.{[], ◌∷◌, List}
use financial_crime_complian.Common.{
  ℕ, String, Option, [], if◌then◌else◌, ◌*◌, Bool, some, ltb, eqb, ◌==◌, none, ◌||◌, false, ◌+◌,
  ◌-◌, true,
}
use financial_crime_complian.Domain.Audit.{Time}
use financial_crime_complian.Common.Dict.{Dict, put, get, keys, remove}

-- time.Second and time.Minute
abbrev pub second : ℕ
second = 1000000000

abbrev pub minute : ℕ
minute = 60 * second

pub record Bucket : Type 0 where
  pub tokens : ℕ
  pub updated : Time

pub record RateLimiter : Type 0 where
  pub clients : Dict Bucket
  pub rate : ℕ
  pub scale : ℕ
  pub burst : ℕ
  pub last_prune : Time

-- The units of one token.
abbrev pub token : RateLimiter → ℕ
token l = l.scale * second

-- NewRateLimiter
unfoldable pub new_rate_limiter : ℕ → ℕ → ℕ → RateLimiter
new_rate_limiter rate scale burst = record {
  clients = [];
  rate = rate;
  scale = scale;
  burst = burst * (scale * second);
  last_prune = 0;
}

-- The clock of time.Now is monotonic, so `now` is never before `updated`.
abbrev pub is_idle : Time → Option Bucket → Bool
is_idle now none = false
is_idle now (some item) = ltb (10 * minute) (now - item.updated)

-- The loop of a prune over the keys: buckets that were not used for ten minutes are deleted.
unfoldable pub drop_idle : Time → List String → Dict Bucket → Dict Bucket
drop_idle now [] d = d
drop_idle now (id ∷ ids) d = drop_idle now ids (if is_idle now (get id d) then remove id d else d)

-- lastPrune.IsZero() || now.Sub(lastPrune) > time.Minute
abbrev pub is_time_to_prune : RateLimiter → Time → Bool
is_time_to_prune l now = eqb l.last_prune 0 || ltb minute (now - l.last_prune)

unfoldable pub prune : RateLimiter → Time → RateLimiter
unfolding drop_idle
prune l now =
    if is_time_to_prune l now
    then record l { clients = drop_idle now (keys l.clients) l.clients; last_prune = now }
    else l

-- The tokens of a client's bucket at a time: a new bucket is full, and no bucket holds more.
unfoldable pub refill : RateLimiter → Time → Option Bucket → ℕ
refill l now none = l.burst
refill l now (some item) =
    let tokens = item.tokens + l.rate * (now - item.updated) in
    if ltb l.burst tokens then l.burst else tokens

abbrev pub keep : String → Time → ℕ → RateLimiter → RateLimiter
keep key now tokens l = record l {
  clients = put key (record { tokens = tokens; updated = now }) l.clients;
}

-- What allow does after the prune.
unfoldable pub take_token : String → Time → ℕ → RateLimiter → Bool × RateLimiter
take_token key now tokens l =
    if ltb tokens (token l)
    then (false, keep key now tokens l)
    else (true, keep key now (tokens - token l) l)

-- RateLimiter.allow
unfoldable pub allow : String → Time → RateLimiter → Bool × RateLimiter
unfolding prune refill take_token
allow key now l = let l' = prune l now in take_token key now (refill l' now (get key l'.clients)) l'

-- The paths that are not limited.
abbrev pub is_exempt : String → Bool
is_exempt path = path == "/healthz" || path == "/readyz" || path == "/metrics"

-- net.SplitHostPort gives the host of the remote address, or nothing.
abbrev pub client_of : String → Option String → String
client_of address none = address
client_of address (some host) = host

-- Middleware: `limited` is the answer with the status 429.
unfoldable pub middleware :
    {A S : Type 0}
    → A
    → (S → A × S)
    → String
    → String
    → Option String
    → Time
    → RateLimiter
    → S
    → A × RateLimiter × S
unfolding allow
middleware limited next path address host now l s =
    if is_exempt path
    then (let (a, s') = next s in (a, l, s'))
    else (let (allowed, l') = allow (client_of address host) now l in
        if allowed then (let (a, s') = next s in (a, l', s')) else (limited, l', s))
