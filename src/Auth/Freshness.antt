-- ===== src/Auth/Freshness.antt =====
-- How long the key cache serves a key.
use mathlib.Core.Option.{some-ne-none}
use financial_crime_complian.Common.{
  ℕ, ◌+◌, ◌*◌, ◌^◌, List, [], sym, subst, ◌<◌, ◌≡◌, refl, ap, ◌∙◌, String, Option, some, none, Bool,
  true, not, ◌&&◌, inl, inr, arith, Bool-cases, Option-cases, ltb, eqb,
}
use financial_crime_complian.Common.Dict.{get, Dict}
use financial_crime_complian.Effects.{Result, ok, err}
use financial_crime_complian.Domain.Audit.{Time}
use financial_crime_complian.Auth.Keys.{
  failed, answered, KeyCache, refresh_keys, receive, store_keys, find_key, Fetch, has_no_keys, Jwk,
  find_after, signing_key, is_known, load,
}

some_value : {A : Type 0} → Result A → Option A
some_value (ok a) = some a
some_value (err _) = none

module _ {K : Type 0} where
  find_key_lem :
      (id : String) (s d : KeyCache K) (key : K)
      → find_key id s ≡ (ok key, d)
      → (s ≡ d) × (get id d.keys ≡ some key)
  unfolding some_value
  find_key_lem id s d key h = elim (Option-cases (get id s.keys)) [
    | inl e ↦ absurd (some-ne-none key (sym (ap (λ x. some_value x.0) (rw (find_key, e) at h))))
    | inr (k, e) ↦
        let found : (ok k, s) ≡ (ok key, d) = rw (find_key, e) at h in
        (
          ap (λ x. x.1) found,
          ap (λ x. get id x.1.keys) (sym found) ∙ e ∙ ap (λ x. some_value x.0) found,
        )
  ]

  store_keys_lem :
      (now : Time) (keys : Dict K) (cache d : KeyCache K)
      → store_keys now keys cache ≡ (ok tt, d)
      → now < d.expires_at
  unfolding some_value
  store_keys_lem now keys cache d h = elim (Bool-cases (has_no_keys keys)) [
    | inl e ↦ absurd (some-ne-none tt (sym (ap (λ x. some_value x.0) (rw e at h))))
    | inr e ↦
        let stored : now + 300 * 10 ^ 9 ≡ d.expires_at = ap (λ x. x.1.expires_at) (rw e at h) in
        omega (arith, stored)
  ]

  received :
      (now : Time) (status : ℕ) (set : Result (List (Jwk K))) (cache d : KeyCache K)
      → eqb status 200 ≡ true
      → receive now (answered status set) cache ≡ (ok tt, d)
      → now < d.expires_at
  unfolding receive some_value
  received now status (ok items) cache d e h =
      store_keys_lem now (load items []) cache d (rw (receive, e) at h)
  received now status (err x) cache d e h =
      absurd (some-ne-none tt (sym (ap (λ x. some_value x.0) (rw (receive, e) at h))))

  receive_lem :
      (now : Time) (fetch : Fetch K) (cache d : KeyCache K)
      → receive now fetch cache ≡ (ok tt, d)
      → now < d.expires_at
  unfolding receive some_value
  receive_lem now (failed e) cache d h = absurd (some-ne-none tt (sym (ap (λ x. some_value x.0) h)))
  receive_lem now (answered status set) cache d h = elim (Bool-cases (eqb status 200)) [
    | inr e ↦ absurd (some-ne-none tt (sym (ap (λ x. some_value x.0) (rw (receive, e) at h))))
    | inl e ↦ received now status set cache d e h
  ]

  refresh_keys_lem :
      (force : Bool) (now : Time) (fetch : Fetch K) (cache d : KeyCache K)
      → refresh_keys force now fetch cache ≡ (ok tt, d)
      → now < d.expires_at
  unfolding refresh_keys
  refresh_keys_lem force now fetch cache d h =
      elim (Bool-cases (not force && (ltb now cache.expires_at && not (has_no_keys cache.keys)))) [
        | inl e ↦
            let kept : cache.expires_at ≡ d.expires_at =
              ap (λ x. x.1.expires_at) (rw (refresh_keys, e) at h) in
            ground arith
        | inr e ↦ receive_lem now fetch cache d (rw (refresh_keys, e) at h)
      ]

  find_after_lem :
      (now : Time) (t : Result (Unit {0}) × KeyCache K) (id : String) (d : KeyCache K) (key : K)
      → ((e : KeyCache K) → t ≡ (ok tt, e) → now < e.expires_at)
      → find_after t id ≡ (ok key, d)
      → (get id d.keys ≡ some key) × (now < d.expires_at)
  unfolding some_value
  find_after_lem now (err e, s) id d key fresh h =
      absurd (some-ne-none key (sym (ap (λ x. some_value x.0) h)))
  find_after_lem now (ok _, s) id d key fresh h =
      let (same, found) = find_key_lem id s d key h in
      (found, subst (λ x. now < x.expires_at) same (fresh s refl))

  -- No stale key: a signing key that is served is in the key cache after the call, and the cache has
  -- not run out at that time.
  pub signing_key_is_fresh :
      (now : Time) (fetch : Fetch K) (id : String) (cache d : KeyCache K) (key : K)
      → signing_key now fetch id cache ≡ (ok key, d)
      → (get id d.keys ≡ some key) × (now < d.expires_at)
  unfolding signing_key
  signing_key_is_fresh now fetch id cache d key h =
      elim (Bool-cases (is_known (get id cache.keys) && ltb now cache.expires_at)) [
        | inl e ↦
            let (same, found) = find_key_lem id cache d key (rw (signing_key, e) at h) in
            (found, subst (λ x. now < x.expires_at) same (ground arith))
        | inr e ↦
            find_after_lem now (refresh_keys (not (is_known (get id cache.keys))) now fetch cache)
              id d key
              (λ s p. refresh_keys_lem (not (is_known (get id cache.keys))) now fetch cache s p)
              (rw (signing_key, e) at h)
      ]
