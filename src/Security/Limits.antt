-- ===== src/Security/Limits.antt =====
-- internal/security/http.go: the rate that the limiter holds a client to, and what it grants.
use native.Mathlib.Nat.{mul-add, add-mul}
use financial_crime_complian.Common.Dict.{get}
use financial_crime_complian.Common.{
  [], ◌∷◌, ◌*◌, Bool, ◌&&◌, subst, true, false, ◌-◌, refl, ap, ◌∙◌,
}
use financial_crime_complian.Domain.Audit.{Time}
use financial_crime_complian.Security.Limiter.{refill, prune, allow, RateLimiter, Bucket, token}
use financial_crime_complian.Common.{
  arith, List, String, ◌≡◌, Option, ◌≤◌, ℕ, some, none, ◌+◌, if◌then◌else◌, ◌==◌,
}
use financial_crime_complian.Security.Budget.{
  FillsUp, available, price, take_token-available, prune-available, later-available,
  refill-le-burst,
}

-- The limits of a limiter do not change.
pub record SameLimits (l m : RateLimiter) : Type 0 where
  pub rate : m.rate ≡ l.rate
  pub scale : m.scale ≡ l.scale
  pub burst : m.burst ≡ l.burst

allow-SameLimits : (key : String) (now : Time) (l : RateLimiter) → SameLimits l (allow key now l).1
unfolding allow
allow-SameLimits key now l = record {
  rate = ground arith;
  scale = ground arith;
  burst = ground arith;
}

-- The calls of allow for a list of requests, each with its client and its time.
unfoldable pub allow_all : RateLimiter → List (String × Time) → RateLimiter
unfolding allow
allow_all l [] = l
allow_all l ((key, now) ∷ rest) = allow_all (allow key now l).1 rest

-- How many requests of the client pass.
unfoldable pub passed : String → RateLimiter → List (String × Time) → ℕ
unfolding allow
passed client l [] = 0
passed client l ((key, now) ∷ rest) =
    (if key == client && (allow key now l).0 then 1 else 0) + passed client (allow key now l).1 rest

-- The requests come between the two times, in order.
abbrev pub IsOrdered : Time → Time → List (String × Time) → Type 0
IsOrdered from to [] = from ≤ to
IsOrdered from to ((key, now) ∷ rest) = (from ≤ now) × IsOrdered now to rest

prune-SameLimits : (l : RateLimiter) (now : Time) → SameLimits l (prune l now)
unfolding prune
prune-SameLimits l now = record { rate = ground arith; scale = ground arith; burst = ground arith }

-- A refill reads no more of the limiter than its limits.
pub refill-SameLimits :
    (l m : RateLimiter) (now : Time) (o : Option Bucket)
    → SameLimits l m
    → refill m now o ≡ refill l now o
unfolding refill
refill-SameLimits l m now none h = h.burst
refill-SameLimits l m now (some item) h = rw (h.burst, h.rate)

price-SameLimits : (l m : RateLimiter) (b : Bool) → SameLimits l m → price m b ≡ price l b
price-SameLimits l m true h = rw h.scale
price-SameLimits l m false h = refl

allow-available :
    (l : RateLimiter) (key k : String) (now : Time)
    → FillsUp l
    → available (allow key now l).1 k now + (if key == k then price l (allow key now l).0 else 0)
      ≤ available l k now
unfolding allow
allow-available l key k now h =
    let spent =
      take_token-available (prune l now) key k now (available (prune l now) key now) refl in
    subst
      (λ p. available (allow key now l).1 k now + (if key == k then p else 0) ≤ available l k now)
      (price-SameLimits l (prune l now) (allow key now l).0 (prune-SameLimits l now))
      (subst
        (λ n.
          available (allow key now l).1 k now
            + (if key == k then price (prune l now) (allow key now l).0 else 0)
          ≤ n)
        (prune-available l now k h) spent)

-- One request: the passing ones of the client pay a token each.
paid :
    (k : String) (l : RateLimiter) (key : String) (b : Bool)
    → (if key == k && b then 1 else 0) * token l ≡ (if key == k then price l b else 0)
paid k l key true = ground arith
paid k l key false = ground arith

IsOrdered-le :
    (from to : Time) (requests : List (String × Time)) → IsOrdered from to requests → from ≤ to
IsOrdered-le from to [] o = o
IsOrdered-le from to ((key, now) ∷ rest) o = omega (arith, IsOrdered-le now to rest o.1)

-- The account of one request and of those after it.
account :
    (c p t r start now now' end from to : ℕ) (o : from ≤ now') (o' : now' ≤ to)
    → p * t + end ≤ now + r * (to - now')
    → now + c * t ≤ start + r * (now' - from)
    → (c + p) * t + end ≤ start + r * (to - from)
account c p t r start now now' end from to o o' h k =
    let split : r * (to - from) ≡ r * (to - now') + r * (now' - from) =
      ap (λ n. r * n) (omega arith) ∙ mul-add r (to - now') (now' - from) in
    omega (arith, add-mul c p t)

-- What has passed, what is left and what is granted.
budget :
    (k : String) (l : RateLimiter) (from to : Time) (requests : List (String × Time))
    → FillsUp l
    → IsOrdered from to requests
    → passed k l requests * token l + available (allow_all l requests) k to
      ≤ available l k from + l.rate * (to - from)
unfolding passed allow_all
budget k l from to [] h o = omega (arith, later-available l from to (get k l.clients))
budget k l from to ((key, now) ∷ rest) h o =
    let same = allow-SameLimits key now l in
    let later = budget k (allow key now l).1 now to rest (rw (same.rate, same.burst) h) o.1 in
    account (if key == k && (allow key now l).0 then 1 else 0) (passed k (allow key now l).1 rest)
      (token l) l.rate (available l k from) (available (allow key now l).1 k now) now
      (available (allow_all (allow key now l).1 rest) k to) from to o.0
      (IsOrdered-le now to rest o.1) (rw (same.rate, same.scale) at later)
      (omega (
        arith,
        allow-available l key k now h,
        paid k l key (allow key now l).0,
        later-available l from now (get k l.clients),
      ))

-- No client exceeds its rate: in a series of requests from `from` to `to`, from any state, the tokens
-- of those that the client gets through are at most a full bucket and what the rate grants in that
-- time, if the rate fills a bucket within the ten minutes after which an idle bucket is dropped.
pub passed_bounds :
    (client : String) (l : RateLimiter) (from to : Time) (requests : List (String × Time))
    → FillsUp l
    → IsOrdered from to requests
    → passed client l requests * token l ≤ l.burst + l.rate * (to - from)
passed_bounds client l from to requests h o =
    omega
      (arith, budget client l from to requests h o, refill-le-burst l from (get client l.clients))
