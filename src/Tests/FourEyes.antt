-- ===== src/Tests/FourEyes.antt =====
-- A customer that one user makes and another approves, over HTTP.
use Prim.Native.String.{◌++◌}
use financial_crime_complian.Common.Dict.{get, put}
use financial_crime_complian.Application.Onboarding as Onboarding
use financial_crime_complian.Transport.Handlers.Customers
use financial_crime_complian.Transport.Histories.{serve_all}
use financial_crime_complian.Transport.FourEyes.{serve_all-IsSound}
use financial_crime_complian.Platform.Customers.Approval.{IsSound}
use financial_crime_complian.Application.Onboarding.{onboard, submitted}
use financial_crime_complian.Transport.Respond.{with_body, respond, reject}
use financial_crime_complian.Domain.Customer.{Customer, CustomerStatus}
use financial_crime_complian.Transport.Requests.{Request, Method, Reply}
use financial_crime_complian.Common.{
  List, String, some, if◌then◌else◌, ◌∷◌, ◌==◌, [], false, ◌≡◌, refl,
}
use financial_crime_complian.Transport.Api.{
  serve, Server, Visit, serve_endpoint, authenticated, admit, require_roles, dispatch,
}
use financial_crime_complian.Tests.Auth.{no_keys, toy_crypto, claims_of_alice, authenticator}
use financial_crime_complian.Auth.Tokens.{
  Claims, Role, authenticate, bearer_token, cut, is_bearer, split, parts_of, check_parts, if_signed,
  valid_signature, accept, is_refused, role_of,
}
use financial_crime_complian.Transport.Routes.{route, match_path, roles_of}
use financial_crime_complian.Tests.Transport.{request, visit, empty_body, no_codec}
use financial_crime_complian.Tests.Fixtures.{onboard_env, onboarding, review_env}
use financial_crime_complian.Common.Text.{to_upper, trim_space}
use financial_crime_complian.Memory.Customers.{create_customer, review_customer, decided}
use financial_crime_complian.Effects.{refuse_if}
use financial_crime_complian.Application.Env.{upper_trim}
use financial_crime_complian.Memory.{new_repository}

-- The middle part of a token names the user, and the last one is its HMAC.
abbrev claims_of : String → Claims
claims_of s = record claims_of_alice {
  subject = (if s == "c" then "checker" else "maker");
  role = (if s == "c" then Role.reviewer else Role.analyst);
}

abbrev office : Server String String
office = record {
  crypto = record toy_crypto {
    claims = λ s. some (claims_of s);
    signature = λ s. some s;
    hs256 = λ secret unsigned mac. unsigned == "h." ++ mac;
  };
  authenticator = authenticator;
  codec = no_codec;
  parse_address = λ s. some s;
  webhook_url = "";
  metrics = λ a. record { status = 200; replayed = false; reply = Reply.plain "" };
}

abbrev onboarding_by_maker : Request
onboarding_by_maker =
    request Method.post ("v1" ∷ "customers" ∷ []) "Bearer h.m.m"
      (record empty_body { onboarding = some onboarding })

abbrev approval_by : String → Request
approval_by token =
    request Method.post ("v1" ∷ "customers" ∷ "c1" ∷ "approve" ∷ []) token empty_body

abbrev day : List (Visit String × Request)
day =
    (visit onboard_env, onboarding_by_maker)
    ∷ (visit review_env, approval_by "Bearer h.m.m")
    ∷ (visit review_env, approval_by "Bearer h.c.c")
    ∷ []

abbrev approved_over_http : Customer
approved_over_http = record (submitted onboard_env (record onboarding { actor = "maker" })) {
  status = CustomerStatus.active;
  reviewed_by = "checker";
  reviewed_at = some 20;
}

approval_is_stored :
    get "c1"
      (serve_all office day (record { store = new_repository; keys = no_keys })).store.customers
    ≡ some approved_over_http
unfolding serve_all serve route match_path serve_endpoint roles_of authenticated admit authenticate
    bearer_token cut is_bearer to_upper trim_space split parts_of check_parts if_signed
    valid_signature accept is_refused role_of require_roles dispatch Customers.onboard_customer
    Customers.review_customer with_body respond onboard Onboarding.review create_customer
    review_customer decided get put refuse_if submitted upper_trim reject
approval_is_stored = refl

serve_all-IsSound_example : IsSound approved_over_http
serve_all-IsSound_example =
    serve_all-IsSound office day no_keys "c1" approved_over_http approval_is_stored
