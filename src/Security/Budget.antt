-- ===== src/Security/Budget.antt =====
-- internal/security/http.go: how many requests of one client the rate limiter lets through.
use native.Mathlib.Nat.{mul-le-mul_left, mul-add, sub_self}
use financial_crime_complian.Security.Limiter.{
  RateLimiter, refill, drop_idle, Bucket, minute, is_idle, prune, take_token, token,
  is_time_to_prune, keep,
}
use financial_crime_complian.Common.{
  ◌≤◌, String, List, ◌*◌, ℕ, Option, arith, ◌≡◌, some, true, none, ◌∷◌, ◌⊎◌, false, if◌then◌else◌,
  inl, inr, ◌∙◌, Bool-cases, [], refl, ◌==◌, ltb, ◌-◌, subst, eq_iff, sym, Bool, ◌+◌, ltb→lt,
}
use financial_crime_complian.Domain.Audit.{Time}
use financial_crime_complian.Common.Dict.{Dict, get, remove, get-remove, keys, get-put}

-- The tokens that a client has at a time.
abbrev pub available : RateLimiter → String → Time → ℕ
available l key now = refill l now (get key l.clients)

-- An idle bucket of ten minutes fills up.
abbrev pub FillsUp : RateLimiter → Type 0
FillsUp l = l.burst ≤ l.rate * (10 * minute)

pub refill-le-burst : (l : RateLimiter) (now : Time) (o : Option Bucket) → refill l now o ≤ l.burst
unfolding refill
refill-le-burst l now none = omega arith
refill-le-burst l now (some item) = ground arith

idle_is_full :
    (l : RateLimiter) (now : Time) (o : Option Bucket)
    → FillsUp l
    → is_idle now o ≡ true
    → refill l now o ≡ l.burst
unfolding refill
idle_is_full l now none h i = cc
idle_is_full l now (some item) h i =
    let idle : 10 * minute ≤ now - item.updated =
      omega (arith, ltb→lt (10 * minute) (now - item.updated) i) in
    let grown : l.rate * (10 * minute) ≤ l.rate * (now - item.updated) =
      mul-le-mul_left l.rate idle in
    full (item.tokens + l.rate * (now - item.updated)) (omega arith)
  where
    full : (n : ℕ) → l.burst ≤ n → (if ltb l.burst n then l.burst else n) ≡ l.burst
    full n k = ground arith

-- Deleting an idle bucket does not change what its client has.
drop_idle-available :
    (l : RateLimiter) (now : Time) (key : String) (ids : List String) (d : Dict Bucket)
    → FillsUp l
    → refill l now (get key (drop_idle now ids d)) ≡ refill l now (get key d)
unfolding drop_idle refill
drop_idle-available l now key [] d h = refl
drop_idle-available l now key (id ∷ ids) d h =
    drop_idle-available l now key ids _ h ∙ dropped (Bool-cases (is_idle now (get id d)))
  where
    of_key :
        ((id == key) ≡ true) ⊎ ((id == key) ≡ false)
        → is_idle now (get id d) ≡ true
        → refill l now (if id == key then none else get key d) ≡ refill l now (get key d)
    of_key (inl e) i = rw e (
        subst (λ k. refill l now none ≡ refill l now (get k d)) ((eq_iff id key).0 e)
          (sym (idle_is_full l now (get id d) h i)))
    of_key (inr e) i = rw e

    dropped :
        (is_idle now (get id d) ≡ true) ⊎ (is_idle now (get id d) ≡ false)
        → refill l now (get key (if is_idle now (get id d) then remove id d else d))
          ≡ refill l now (get key d)
    dropped (inl i) = rw (i, get-remove id key d) (of_key (Bool-cases (id == key)) i)
    dropped (inr i) = rw i

-- A prune takes nothing from a client, and gives it nothing.
pub prune-available :
    (l : RateLimiter) (now : Time) (key : String)
    → FillsUp l
    → available (prune l now) key now ≡ available l key now
unfolding prune refill
prune-available l now key h = elim (Bool-cases (is_time_to_prune l now)) [
  | inl e ↦
      rw (e, prune) (unfold refill in drop_idle-available l now key (keys l.clients) l.clients h)
  | inr e ↦ rw (e, prune) refl
]

-- The same client at a later time.
pub later-available :
    (l : RateLimiter) (now then' : Time) (o : Option Bucket)
    → refill l then' o ≤ refill l now o + l.rate * (then' - now)
unfolding refill
later-available l now then' none = omega arith
later-available l now then' (some item) =
    let more : l.rate * (then' - item.updated) ≤ l.rate * (now - item.updated + (then' - now)) =
      mul-le-mul_left l.rate (omega arith) in
    ground (arith, mul-add l.rate (now - item.updated) (then' - now))

-- One token for a request that passes.
abbrev pub price : RateLimiter → Bool → ℕ
price l true = token l
price l false = 0

kept-available :
    (l : RateLimiter) (key k : String) (now : Time) (n : ℕ)
    → n ≤ l.burst
    → available (keep key now n l) k now ≡ (if key == k then n else available l k now)
unfolding refill
kept-available l key k now n h =
    rw (get-put key k (record { tokens = n; updated = now }) l.clients)
      (found (Bool-cases (key == k)))
  where
    found :
        ((key == k) ≡ true) ⊎ ((key == k) ≡ false)
        → refill l now
            (if key == k then some (record { tokens = n; updated = now }) else get k l.clients)
          ≡ (if key == k then n else refill l now (get k l.clients))
    found (inl e) = rw e (ground (arith, sub_self now))
    found (inr e) = rw e

-- What a request costs is taken from its client, and from no other.
spent-available :
    (l : RateLimiter) (key k : String) (now : Time) (n p : ℕ)
    → n + p ≡ available l key now
    → available (keep key now n l) k now + (if key == k then p else 0) ≤ available l k now
spent-available l key k now n p h =
    rw (kept-available l key k now n (omega (arith, refill-le-burst l now (get key l.clients))))
      (found (Bool-cases (key == k)))
  where
    found :
        ((key == k) ≡ true) ⊎ ((key == k) ≡ false)
        → (if key == k then n else available l k now) + (if key == k then p else 0)
          ≤ available l k now
    found (inl e) = rw e (subst (λ x. n + p ≤ available l x now) ((eq_iff key k).0 e) (omega arith))
    found (inr e) = rw e (omega arith)

pub take_token-available :
    (l : RateLimiter) (key k : String) (now : Time) (n : ℕ)
    → n ≡ available l key now
    → available (take_token key now n l).1 k now
        + (if key == k then price l (take_token key now n l).0 else 0)
      ≤ available l k now
unfolding take_token
take_token-available l key k now n h = elim (Bool-cases (ltb n (token l))) [
  | inl e ↦ rw (e, take_token) (spent-available l key k now n 0 (omega arith))
  | inr e ↦ rw (e, take_token) (spent-available l key k now (n - token l) (token l) (ground arith))
]
