-- ===== src/Security/Waiting.antt =====
-- internal/security/http.go: a client that waits.
use financial_crime_complian.Common.Dict.{get, Dict, remove, keys, get-remove}
use financial_crime_complian.Common.{
  [], ◌∷◌, ◌*◌, Bool, true, false, ◌-◌, refl, Bool-cases, inl, inr,
}
use financial_crime_complian.Domain.Audit.{Time}
use financial_crime_complian.Security.Limiter.{
  refill, prune, allow, RateLimiter, Bucket, token, drop_idle, take_token, is_time_to_prune,
  is_idle,
}
use financial_crime_complian.Common.{
  arith, List, String, ◌≡◌, Option, ◌≤◌, ℕ, some, none, if◌then◌else◌, ◌==◌,
}
use financial_crime_complian.Security.Budget.{available}
use financial_crime_complian.Security.Limits.{refill-SameLimits}

-- What the bucket of a client is after a prune: what it was, or none.
drop_idle-get {ℓ} :
    (P : Option Bucket → Type ℓ) (now : Time) (key : String) (ids : List String) (d : Dict Bucket)
    → P none
    → P (get key d)
    → P (get key (drop_idle now ids d))
unfolding drop_idle
drop_idle-get P now key [] d n h = h
drop_idle-get P now key (id ∷ ids) d n h =
    drop_idle-get P now key ids _ n (kept (is_idle now (get id d)))
  where
    removed : (b : Bool) → P (if b then none else get key d)
    removed true = n
    removed false = h

    kept : (b : Bool) → P (get key (if b then remove id d else d))
    kept true = rw (get-remove id key d) (removed (id == key))
    kept false = h

enough :
    (l : RateLimiter) (now : Time) (o : Option Bucket)
    → token l ≤ l.burst
    → ((item : Bucket) → o ≡ some item → token l ≤ l.rate * (now - item.updated))
    → token l ≤ refill l now o
unfolding refill
enough l now none full h = full
enough l now (some item) full h = ground (arith, h item refl)

pruned_enough :
    (l : RateLimiter) (now : Time) (client : String)
    → token l ≤ l.burst
    → token l ≤ available l client now
    → token (prune l now) ≤ available (prune l now) client now
unfolding prune
pruned_enough l now client full h = elim (Bool-cases (is_time_to_prune l now)) [
  | inl e ↦
      rw (e, prune)
        (rw
          (refill-SameLimits l
            (record l { clients = drop_idle now (keys l.clients) l.clients; last_prune = now }) now
            _ (record { rate = refl; scale = refl; burst = refl }))
          (drop_idle-get (λ o. token l ≤ refill l now o) now client (keys l.clients) l.clients
            (unfold refill in full) h))
  | inr e ↦ rw (e, prune) h
]

passes :
    (key : String) (now : Time) (l : RateLimiter) (n : ℕ)
    → token l ≤ n
    → (take_token key now n l).0 ≡ true
unfolding take_token
passes key now l n h = ground arith

-- A client that waits gets through: a request passes if its client has no bucket yet, or if so much
-- time has gone by since its last request that the rate has granted a token, whatever the limiter
-- has done before; a bucket must hold a token at all.
pub waiting_client_passes :
    (client : String) (l : RateLimiter) (now : Time)
    → token l ≤ l.burst
    → ((item : Bucket) → get client l.clients ≡ some item → token l ≤ l.rate * (now - item.updated))
    → (allow client now l).0 ≡ true
unfolding allow
waiting_client_passes client l now full waited =
    passes client now (prune l now) (available (prune l now) client now) (
      pruned_enough l now client full
        (enough l now (get client l.clients) full (λ item e. waited item e)))
