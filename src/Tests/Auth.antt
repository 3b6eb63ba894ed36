-- ===== src/Tests/Auth.antt =====
-- A token with an HMAC, on concrete data.
use financial_crime_complian.Common.Dict.{get}
use financial_crime_complian.Common.{◌<◌, [], ◌∷◌, ◌≡◌, refl, String, some, false, ◌==◌}
use financial_crime_complian.Common.Int.{pos}
use financial_crime_complian.Auth.Authentic.{IsAuthentic, authenticate-IsAuthentic}
use financial_crime_complian.Auth.Freshness.{signing_key_is_fresh}
use financial_crime_complian.Effects.{ok}
use financial_crime_complian.Auth.Tokens.{
  Role, Moment, Crypto, Principal, Authenticator, authenticate, Claims, bearer_token, cut,
  is_bearer, split, parts_of, check_parts, valid_signature, accept, is_refused, role_of, if_signed,
}
use financial_crime_complian.Auth.Keys.{KeyCache, answered, signing_key}
use financial_crime_complian.Common.Text.{to_upper, trim_space}

abbrev pub claims_of_alice : Claims
claims_of_alice = record {
  subject = "alice";
  role = Role.reviewer;
  issuer = "fccp";
  expires_at = pos 900;
  not_before = pos 0;
  authorized_party = "";
  realm_roles = [];
}

-- Byte slices and keys are texts here, and the HMAC of a message is the message.
abbrev pub toy_crypto : Crypto String String
toy_crypto = record {
  header = λ s. some (record { algorithm = "HS256"; type = "JWT"; key_id = "" });
  claims = λ s. some claims_of_alice;
  signature = λ s. some "h.c";
  hs256 = λ secret unsigned mac. unsigned == mac;
  rs256 = λ key unsigned sig. false;
}

abbrev pub authenticator : Authenticator
authenticator = record {
  secret = "secret";
  issuer = "fccp";
  jwks_url = "";
  authorized_parties = [];
}

abbrev pub moment : Moment String
moment = record { now = 5; unix = 100; fetch = answered 500 (ok []) }

abbrev pub no_keys : KeyCache String
no_keys = record { keys = []; expires_at = 0 }

abbrev alice : Principal
alice = record { subject = "alice"; role = Role.reviewer }

alice_is_accepted :
    authenticate toy_crypto authenticator moment "Bearer h.c.s" no_keys ≡ (ok alice, no_keys)
unfolding authenticate bearer_token cut is_bearer to_upper trim_space split parts_of check_parts
    if_signed valid_signature accept is_refused role_of
alice_is_accepted = refl

authenticate-IsAuthentic_example :
    IsAuthentic toy_crypto authenticator moment "Bearer h.c.s" no_keys no_keys alice
authenticate-IsAuthentic_example =
    authenticate-IsAuthentic toy_crypto authenticator moment "Bearer h.c.s" no_keys no_keys alice
      alice_is_accepted

abbrev one_key : KeyCache String
one_key = record { keys = ("k1", "public") ∷ []; expires_at = 300 }

key_is_served : signing_key 200 (answered 500 (ok [])) "k1" one_key ≡ (ok "public", one_key)
unfolding signing_key get
key_is_served = refl

signing_key_is_fresh_example : (get "k1" one_key.keys ≡ some "public") × (200 < one_key.expires_at)
signing_key_is_fresh_example =
    signing_key_is_fresh 200 (answered 500 (ok [])) "k1" one_key one_key "public" key_is_served
