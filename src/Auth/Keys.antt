-- ===== src/Auth/Keys.antt =====
-- internal/auth/auth.go: the cache of signing keys, and its refresh from the JWKS endpoint.
use financial_crime_complian.Common.{
  ℕ, ◌+◌, ◌*◌, ◌^◌, String, List, [], ◌∷◌, Option, none, some, Bool, true, false, not, ◌&&◌, ◌||◌,
  ◌==◌, eqb, ltb, if◌then◌else◌,
}
use financial_crime_complian.Common.Int.{ℤ, pos, is_below}
use financial_crime_complian.Common.Text.{is_empty, format_int}
use Prim.Native.String.{◌++◌}
use financial_crime_complian.Common.Dict.{Dict, get, put}
use financial_crime_complian.Domain.Errors.{Error}
use financial_crime_complian.Domain.Audit.{Time}
use financial_crime_complian.Effects.{Result, ok, err, Exec}

-- One key of the set: the exponent, and the public key, where both of its numbers can be decoded.
pub record Jwk (K : Type 0) : Type 0 where
  pub id : String
  pub type : String
  pub decoded : Option (ℤ × K)

-- What comes of the request for the set.
pub data Fetch (K : Type 0) : Type 0 where
  failed : Error → Fetch K
  answered : ℕ → Result (List (Jwk K)) → Fetch K

-- The fields of Authenticator that change.
pub record KeyCache (K : Type 0) : Type 0 where
  pub keys : Dict K
  pub expires_at : Time

module _ {K : Type 0} where
  -- One round of the loop over the set.
  abbrev pub add_key : Jwk K → Dict K → Dict K
  add_key item keys =
      if not (item.type == "RSA") || is_empty item.id then keys else (elim item.decoded [
        | none ↦ keys
        | some (exponent, key) ↦ if is_below exponent 2 then keys else put item.id key keys
      ])

  unfoldable pub load : List (Jwk K) → Dict K → Dict K
  load [] keys = keys
  load (item ∷ items) keys = load items (add_key item keys)

  abbrev pub has_no_keys : Dict K → Bool
  has_no_keys [] = true
  has_no_keys (_ ∷ _) = false

  abbrev pub store_keys : Time → Dict K → Exec (KeyCache K) Unit
  store_keys now keys cache =
      if has_no_keys keys
      then (err (Error.external "JWKS contains no RSA signing keys"), cache)
      else (ok tt, record { keys = keys; expires_at = now + 300 * 10 ^ 9 })

  unfoldable pub receive : Time → Fetch K → Exec (KeyCache K) Unit
  unfolding load format_int
  receive now (failed e) cache = (err e, cache)
  receive now (answered status set) cache =
      if not (eqb status 200)
      then (err (Error.external ("JWKS endpoint returned " ++ format_int (pos status))), cache)
      else (elim set [ err e ↦ (err e, cache) | ok items ↦ store_keys now (load items []) cache ])

  -- Authenticator.refreshKeys
  unfoldable pub refresh_keys : Bool → Time → Fetch K → Exec (KeyCache K) Unit
  unfolding receive
  refresh_keys force now fetch cache =
      if not force && (ltb now cache.expires_at && not (has_no_keys cache.keys))
      then (ok tt, cache)
      else receive now fetch cache

  abbrev pub find_key : String → Exec (KeyCache K) K
  find_key id cache = elim (get id cache.keys) [
    | none ↦ (err (Error.external "signing key not found"), cache)
    | some key ↦ (ok key, cache)
  ]

  abbrev pub find_after : Result (Unit {0}) × KeyCache K → String → Result K × KeyCache K
  find_after (err e, cache) id = (err e, cache)
  find_after (ok _, cache) id = find_key id cache

  abbrev pub is_known : Option K → Bool
  is_known none = false
  is_known (some _) = true

  -- Authenticator.signingKey
  unfoldable pub signing_key : Time → Fetch K → String → Exec (KeyCache K) K
  unfolding refresh_keys
  signing_key now fetch id cache =
      let known = is_known (get id cache.keys) in
      if known && ltb now cache.expires_at
      then find_key id cache
      else find_after (refresh_keys (not known) now fetch cache) id
