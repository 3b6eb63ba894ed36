-- ===== src/Auth/Tokens.antt =====
-- internal/auth/auth.go: Authenticate. Every failure is ErrInvalidToken.
use financial_crime_complian.Common.{
  ℕ, String, List, [], ◌∷◌, Option, none, some, Bool, true, false, not, ◌&&◌, ◌||◌, ◌==◌, eqb, any,
  if◌then◌else◌,
}
use Prim.Native.String.{◌++◌}
use Prim.Native.Char.{code}
use financial_crime_complian.Common.Int.{ℤ, is_above}
use financial_crime_complian.Common.Text.{is_empty, trim_space, to_upper}
use financial_crime_complian.Domain.Errors.{Error}
use financial_crime_complian.Domain.Audit.{Time}
use financial_crime_complian.Effects.{Result, ok, err, Exec}
use financial_crime_complian.Auth.Keys.{KeyCache, Fetch, signing_key}

pub data Role : Type 0 where
  analyst reviewer admin : Role
  other : String → Role

abbrev pub valid_role : Role → Bool
valid_role (Role.other _) = false
valid_role _ = true

pub record Principal : Type 0 where
  pub subject : String
  pub role : Role

-- `realm_roles` is realm_access.roles.
pub record Claims : Type 0 where
  pub subject : String
  pub role : Role
  pub issuer : String
  pub expires_at : ℤ
  pub not_before : ℤ
  pub authorized_party : String
  pub realm_roles : List Role

pub record Header : Type 0 where
  pub algorithm : String
  pub type : String
  pub key_id : String

-- The fields of Authenticator that do not change.
pub record Authenticator : Type 0 where
  pub secret : String
  pub issuer : String
  pub jwks_url : String
  pub authorized_parties : List String

-- The decoders (base64 and JSON), and the checks of the two kinds of signature: HMAC with a secret,
-- RSA with a public key. `B` are byte slices.
pub record Crypto (B K : Type 0) : Type 0 where
  pub header : String → Option Header
  pub claims : String → Option Claims
  pub signature : String → Option B
  pub hs256 : String → String → B → Bool
  pub rs256 : K → String → B → Bool

-- The clock in the two readings that the code makes of it, and what a request for keys would give.
pub record Moment (K : Type 0) : Type 0 where
  pub now : Time
  pub unix : ℕ
  pub fetch : Fetch K

-- strings.Cut(s, " ")
unfoldable pub cut : String → Option (String × String)
cut String.[] = none
cut (String.◌∷◌ c s) =
    let rest = cut s in
    if eqb (code c) 32
    then some (String.[], s)
    else (elim rest [ none ↦ none | some (a, b) ↦ some (String.◌∷◌ c a, b) ])

abbrev pub in_front : String → List String → List String
in_front c [] = c ∷ []
in_front c (part ∷ parts) = (c ++ part) ∷ parts

-- strings.Split(s, ".")
unfoldable pub split : String → List String
split String.[] = String.[] ∷ []
split (String.◌∷◌ c s) =
    let rest = split s in
    if eqb (code c) 46 then String.[] ∷ rest else in_front (String.◌∷◌ c String.[]) rest

-- strings.EqualFold(s, "Bearer"): no character past ASCII folds to one of its letters.
unfoldable pub is_bearer : String → Bool
unfolding to_upper
is_bearer s = to_upper (λ c. c) s == "BEARER"

-- The token of an authorization header.
unfoldable pub bearer_token : String → Option String
unfolding cut is_bearer
bearer_token authorization = elim (cut (trim_space authorization)) [
  | none ↦ none
  | some (scheme, token) ↦
      if not (is_bearer scheme) || is_empty (trim_space token) then none else some token
]

-- The three parts of a token.
unfoldable pub parts_of : List String → Option (String × String × String)
parts_of (a ∷ b ∷ c ∷ []) = some (a, b, c)
parts_of _ = none

abbrev pub first_valid : Role → List Role → Role
first_valid role [] = role
first_valid role (r ∷ rs) = let rest = first_valid role rs in if valid_role r then r else rest

-- The role of the claims, or the first valid one of the realm.
unfoldable pub role_of : Claims → Role
role_of c = if valid_role c.role then c.role else first_valid c.role c.realm_roles

abbrev pub is_nil : List String → Bool
is_nil [] = true
is_nil (_ ∷ _) = false

unfoldable pub is_refused : Authenticator → ℕ → Claims → Bool
unfolding role_of
is_refused a unix c =
    is_empty (trim_space c.subject)
    || not (c.issuer == a.issuer)
    || not (is_above c.expires_at unix)
    || is_above c.not_before unix
    || not (valid_role (role_of c))
    || (not (is_nil a.authorized_parties)
        && not (any (λ p. p == c.authorized_party) a.authorized_parties))

abbrev pub invalid_token : Error
invalid_token = Error.external "invalid access token"

module _ {B K : Type 0} (crypto : Crypto B K) (a : Authenticator) (m : Moment K) where
  abbrev pub rsa_valid : String → B → Result K × KeyCache K → Bool × KeyCache K
  rsa_valid unsigned signature (ok key, cache) = (crypto.rs256 key unsigned signature, cache)
  rsa_valid unsigned signature (err _, cache) = (false, cache)

  -- Authenticator.validSignature
  unfoldable pub valid_signature : Header → String → B → KeyCache K → Bool × KeyCache K
  unfolding signing_key
  valid_signature h unsigned signature cache =
      if h.algorithm == "HS256" && not (is_empty a.secret)
      then (crypto.hs256 a.secret unsigned signature, cache)
      else if not (h.algorithm == "RS256") || is_empty h.key_id || is_empty a.jwks_url
      then (false, cache)
      else rsa_valid unsigned signature (signing_key m.now m.fetch h.key_id cache)

  -- The last part of Authenticate.
  unfoldable pub accept : Option Claims → Result Principal
  unfolding is_refused role_of
  accept none = err invalid_token
  accept (some c) =
      if is_refused a m.unix c
      then err invalid_token
      else ok (record { subject = c.subject; role = role_of c })

  unfoldable pub if_signed : String → Bool × KeyCache K → Result Principal × KeyCache K
  unfolding accept
  if_signed payload (true, cache) = (accept (crypto.claims payload), cache)
  if_signed payload (false, cache) = (err invalid_token, cache)

  -- Authenticate, from the three parts of the token on.
  unfoldable pub check_parts : String × String × String → Exec (KeyCache K) Principal
  unfolding valid_signature if_signed
  check_parts (head, payload, sig) cache = elim (crypto.header head) [
    | none ↦ (err invalid_token, cache)
    | some h ↦
        if not (is_empty h.type) && not (h.type == "JWT")
        then (err invalid_token, cache)
        else (elim (crypto.signature sig) [
          | none ↦ (err invalid_token, cache)
          | some signature ↦
              if_signed payload (valid_signature h (head ++ "." ++ payload) signature cache)
        ])
  ]

  -- Authenticator.Authenticate
  unfoldable pub authenticate : String → Exec (KeyCache K) Principal
  unfolding bearer_token parts_of split check_parts
  authenticate authorization cache = elim (bearer_token authorization) [
    | none ↦ (err invalid_token, cache)
    | some token ↦ elim (parts_of (split token)) [
      | none ↦ (err invalid_token, cache)
      | some parts ↦ check_parts parts cache
    ]
  ]
