-- ===== src/Auth/Authentic.antt =====
-- What a token must be for Authenticate to accept it.
use Prim.Native.String.{◌++◌}
use financial_crime_complian.Common.{
  ℕ, ◌<◌, ◌≤◌, ◌≡◌, refl, ap, ◌∙◌, String, some, Bool, true, false, not, ◌&&◌, ◌||◌, ◌==◌, eq_iff,
  any, arith, ◌⊎◌, inl, inr, Bool-cases, Option-cases,
}
use financial_crime_complian.Common.Int.{ℤ, pos, negsuc, is_above}
use financial_crime_complian.Common.Text.{is_empty, trim_space}
use financial_crime_complian.Effects.{Result, ok, err}
use financial_crime_complian.Auth.Keys.{KeyCache, signing_key}
use financial_crime_complian.Auth.Tokens.{
  Authenticator, is_refused, Crypto, Claims, Moment, Header, valid_signature, valid_role, rsa_valid,
  role_of, is_nil, Principal, accept, check_parts, authenticate, if_signed, bearer_token, parts_of,
  split,
}
use financial_crime_complian.Domain.Errors.{Error}

-- unix < z, and z ≤ unix
abbrev pub IsLater : ℤ → ℕ → Type 0
IsLater (pos n) unix = unix < n
IsLater (negsuc n) unix = ⊥

abbrev pub IsPast : ℤ → ℕ → Type 0
IsPast (pos n) unix = n ≤ unix
IsPast (negsuc n) unix = Unit

is_above-IsLater : (z : ℤ) (unix : ℕ) → is_above z unix ≡ true → IsLater z unix
is_above-IsLater (pos n) unix h = ground arith
is_above-IsLater (negsuc n) unix h = ground arith

is_above-IsPast : (z : ℤ) (unix : ℕ) → is_above z unix ≡ false → IsPast z unix
is_above-IsPast (pos n) unix h = ground arith
is_above-IsPast (negsuc n) unix h = tt

-- The claims name a holder, are from the issuer, are in force, give a known role, and are for a
-- party that is admitted, if the authenticator restricts the parties.
pub record IsInForce (a : Authenticator) (unix : ℕ) (c : Claims) : Type 0 where
  pub holder : is_empty (trim_space c.subject) ≡ false
  pub issuer : c.issuer ≡ a.issuer
  pub not_expired : IsLater c.expires_at unix
  pub begun : IsPast c.not_before unix
  pub role : valid_role (role_of c) ≡ true
  pub party :
      (is_nil a.authorized_parties ≡ true)
      ⊎ (any (λ p. p == c.authorized_party) a.authorized_parties ≡ true)

is_refused-IsInForce :
    (a : Authenticator) (unix : ℕ) (c : Claims) → is_refused a unix c ≡ false → IsInForce a unix c
unfolding is_refused
is_refused-IsInForce a unix c h = record {
  holder = ground arith;
  issuer = ground (arith, eq_iff c.issuer a.issuer);
  not_expired = is_above-IsLater c.expires_at unix (ground arith);
  begun = is_above-IsPast c.not_before unix (ground arith);
  role = ground arith;
  party = ground arith;
}

error_is_no_value : (e : Error) (p : Principal) → err e ≡ ok p → ⊥
error_is_no_value e p h = ground arith

module _ {B K : Type 0} (crypto : Crypto B K) (a : Authenticator) (m : Moment K) where
  -- The signature is an HMAC under the secret, if there is one, or an RSA signature under a key that
  -- the key cache gives for the header.
  pub data IsSigned (h : Header) (unsigned : String) (sig : B) (cache d : KeyCache K) : Type 0 where
    by_secret :
        h.algorithm ≡ "HS256"
        → is_empty a.secret ≡ false
        → crypto.hs256 a.secret unsigned sig ≡ true
        → IsSigned h unsigned sig cache d
    by_key :
        (key : K)
        → h.algorithm ≡ "RS256"
        → signing_key m.now m.fetch h.key_id cache ≡ (ok key, d)
        → crypto.rs256 key unsigned sig ≡ true
        → IsSigned h unsigned sig cache d

  rsa_valid-IsSigned :
      (h : Header) (unsigned : String) (sig : B) (cache d : KeyCache K)
      (found : Result K × KeyCache K)
      → h.algorithm ≡ "RS256"
      → signing_key m.now m.fetch h.key_id cache ≡ found
      → rsa_valid crypto a m unsigned sig found ≡ (true, d)
      → IsSigned h unsigned sig cache d
  rsa_valid-IsSigned h unsigned sig cache d (ok key, s) r e v =
      by_key key r (e ∙ ap (λ x. (ok key, x)) (ap (λ x. x.1) v)) (ap (λ x. x.0) v)
  rsa_valid-IsSigned h unsigned sig cache d (err x, s) r e v = absurd (ground arith)

  valid_signature-IsSigned :
      (h : Header) (unsigned : String) (sig : B) (cache d : KeyCache K)
      → valid_signature crypto a m h unsigned sig cache ≡ (true, d)
      → IsSigned h unsigned sig cache d
  unfolding valid_signature
  valid_signature-IsSigned h unsigned sig cache d v =
      elim (Bool-cases (h.algorithm == "HS256" && not (is_empty a.secret))) [
        | inl p ↦
            by_secret (ground (arith, eq_iff h.algorithm "HS256")) (ground arith)
              (ap (λ x. x.0) (rw (valid_signature, p) at v))
        | inr p ↦
            elim (Bool-cases
              (not (h.algorithm == "RS256") || is_empty h.key_id || is_empty a.jwks_url)) [
                | inl q ↦ absurd (ground arith)
                | inr q ↦
                    rsa_valid-IsSigned h unsigned sig cache d _
                      (ground (arith, eq_iff h.algorithm "RS256")) refl
                      (rw (valid_signature, p, q) at v)
              ]
      ]

  -- What an accepted header carries.
  pub record IsAuthentic (authorization : String) (cache d : KeyCache K) (p : Principal)
      : Type 0 where
    pub token : String
    pub parts : String × String × String
    pub head : Header
    pub signature : B
    pub claims : Claims
    pub is_bearer : bearer_token authorization ≡ some token
    pub has_parts : parts_of (split token) ≡ some parts
    pub has_header : crypto.header parts.0 ≡ some head
    pub has_signature : crypto.signature parts.2 ≡ some signature
    pub is_signed : IsSigned head (parts.0 ++ "." ++ parts.1) signature cache d
    pub has_claims : crypto.claims parts.1 ≡ some claims
    pub in_force : IsInForce a m.unix claims
    pub subject : p.subject ≡ claims.subject
    pub role : p.role ≡ role_of claims

  accept_lem :
      (c : Claims) (p : Principal)
      → accept crypto a m (some c) ≡ ok p
      → IsInForce a m.unix c × (p.subject ≡ c.subject) × (p.role ≡ role_of c)
  unfolding accept
  accept_lem c p h = elim (Bool-cases (is_refused a m.unix c)) [
    | inl e ↦ absurd (ground arith)
    | inr e ↦ (is_refused-IsInForce a m.unix c e, ground arith, ground arith)
  ]

  if_signed_lem :
      (payload : String) (v : Bool × KeyCache K) (d : KeyCache K) (p : Principal)
      → if_signed crypto a m payload v ≡ (ok p, d)
      → (v ≡ (true, d)) × (accept crypto a m (crypto.claims payload) ≡ ok p)
  unfolding if_signed
  if_signed_lem payload (true, cache) d p h =
      (ap (λ x. (true, x)) (ap (λ x. x.1) h), ap (λ x. x.0) h)
  if_signed_lem payload (false, cache) d p h = absurd (error_is_no_value _ p (ap (λ x. x.0) h))

  claims_of :
      (payload : String) (p : Principal)
      → accept crypto a m (crypto.claims payload) ≡ ok p
      → (c : Claims) × (crypto.claims payload ≡ some c) × (accept crypto a m (some c) ≡ ok p)
  unfolding accept
  claims_of payload p h = elim (Option-cases (crypto.claims payload)) [
    | inl e ↦ absurd (ground arith)
    | inr (c, e) ↦ (c, e, rw e at h)
  ]

  check_parts_lem :
      (parts : String × String × String) (cache d : KeyCache K) (p : Principal)
      → check_parts crypto a m parts cache ≡ (ok p, d)
      → (h : Header) × (sig : B) × (crypto.header parts.0 ≡ some h)
        × (crypto.signature parts.2 ≡ some sig)
        × (if_signed crypto a m parts.1
              (valid_signature crypto a m h (parts.0 ++ "." ++ parts.1) sig cache)
            ≡ (ok p, d))
  unfolding check_parts
  check_parts_lem (head, payload, sig) cache d p h = elim (Option-cases (crypto.header head)) [
    | inl e ↦ absurd (ground arith)
    | inr (x, e) ↦ elim (Bool-cases (not (is_empty x.type) && not (x.type == "JWT"))) [
      | inl t ↦ absurd (ground arith)
      | inr t ↦ elim (Option-cases (crypto.signature sig)) [
        | inl f ↦ absurd (ground arith)
        | inr (y, f) ↦ (x, y, e, f, rw (check_parts, e, t, f) at h)
      ]
    ]
  ]

  authenticate_lem :
      (authorization : String) (cache d : KeyCache K) (p : Principal)
      → authenticate crypto a m authorization cache ≡ (ok p, d)
      → (token : String) × (parts : String × String × String) × (bearer_token authorization
          ≡ some token)
        × (parts_of (split token) ≡ some parts)
        × (check_parts crypto a m parts cache ≡ (ok p, d))
  unfolding authenticate
  authenticate_lem authorization cache d p h = elim (Option-cases (bearer_token authorization)) [
    | inl e ↦ absurd (ground arith)
    | inr (x, e) ↦ elim (Option-cases (parts_of (split x))) [
      | inl t ↦ absurd (ground arith)
      | inr (y, f) ↦ (x, y, e, f, rw (authenticate, e, f) at h)
    ]
  ]

  -- No forged token: whatever Authenticate accepts is a bearer token of three parts whose signature is
  -- an HMAC under the secret, which is not empty, or an RSA signature under a key of the key cache,
  -- and whose claims are in force; the principal has the subject of the claims and their role.
  pub authenticate-IsAuthentic :
      (authorization : String) (cache d : KeyCache K) (p : Principal)
      → authenticate crypto a m authorization cache ≡ (ok p, d)
      → IsAuthentic authorization cache d p
  authenticate-IsAuthentic authorization cache d p h =
      let (token, parts, e1, e2, h1) = authenticate_lem authorization cache d p h in
      let (head, sig, e3, e4, h2) = check_parts_lem parts cache d p h1 in
      let (signed, h3) = if_signed_lem parts.1 _ d p h2 in
      let (c, e5, h4) = claims_of parts.1 p h3 in
      let (force, e6, e7) = accept_lem c p h4 in
      record {
        token = token;
        parts = parts;
        head = head;
        signature = sig;
        claims = c;
        is_bearer = e1;
        has_parts = e2;
        has_header = e3;
        has_signature = e4;
        is_signed = valid_signature-IsSigned head _ sig cache d signed;
        has_claims = e5;
        in_force = force;
        subject = e6;
        role = e7;
      }
