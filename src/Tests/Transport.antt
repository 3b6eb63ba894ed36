-- ===== src/Tests/Transport.antt =====
-- Requests over HTTP, on concrete data.
use financial_crime_complian.Transport.Authority.{IsAuthorised, serve-IsAuthorised}
use financial_crime_complian.Transport.Histories.{Calls, serve_all, serve_all-refines}
use financial_crime_complian.Transport.Refusals.{refusal_changes_nothing}
use financial_crime_complian.Transport.Safe.{get_is_safe}
use financial_crime_complian.Transport.Handlers.Transactions
use financial_crime_complian.Application.Onboarding as Onboarding
use financial_crime_complian.Common.{
  [], ◌∷◌, List, some, String, none, ◌≡◌, true, refl, false, arith,
}
use financial_crime_complian.Common.Dict.{get, put}
use financial_crime_complian.Transport.Requests.{
  Method, Request, Body, Decoded, Reply, unauthenticated, write_error, write_json,
}
use financial_crime_complian.Application.Transactions.{
  IngestTransactionResult, ingest, submit, normalise,
}
use financial_crime_complian.Application.Queries.{TokenCodec}
use financial_crime_complian.Application.Screening.Gather.{Provider}
use financial_crime_complian.Transport.Api.{
  serve, Server, State, Visit, memory_ports, serve_endpoint, authenticated, admit, require_roles,
  dispatch,
}
use financial_crime_complian.Auth.Tokens.{
  authenticate, Principal, Claims, bearer_token, Role, cut, is_bearer, split, parts_of, check_parts,
  if_signed, valid_signature, accept, is_refused, role_of,
}
use financial_crime_complian.Application.Env.{Env, upper_trim}
use financial_crime_complian.Transport.Routes.{route, match_path, Endpoint, roles_of}
use financial_crime_complian.Platform.{Call, run, step}
use financial_crime_complian.Effects.{ok, refuse_if}
use financial_crime_complian.Transport.Urls.{method_of, path_of, route-path_of}
use financial_crime_complian.Memory.{Repository, new_repository}
use financial_crime_complian.Tests.Auth.{
  claims_of_alice, toy_crypto, moment, authenticator, no_keys,
}
use financial_crime_complian.Tests.Fixtures.{
  onboard_env, payment_env, onboarding, payment, approval, review_env, retry_env,
}
use financial_crime_complian.Domain.Customer.{ReviewDecision}
use financial_crime_complian.Common.Text.{to_upper, trim_space}
use financial_crime_complian.Platform.Ingestion.{replay_of}
use financial_crime_complian.Transport.Replays.{ingestion_is_replayed}
use financial_crime_complian.Transport.Respond.{with_body, respond}
use financial_crime_complian.Application.Onboarding.{onboard, submitted}
use financial_crime_complian.Memory.Customers.{create_customer, review_customer, decided}
use financial_crime_complian.Memory.Transactions.{create_transaction, store_transaction}
use financial_crime_complian.Domain.Monitoring.{evaluate}

abbrev claims_of_root : Claims
claims_of_root = record claims_of_alice { subject = "root"; role = Role.admin }

abbrev pub root : Principal
root = record { subject = "root"; role = Role.admin }

abbrev pub no_codec : TokenCodec
no_codec = record { encode = λ c. c.id; decode = λ s. none }

abbrev silent : Provider
silent = record { name = "silent"; screen = λ n name. ok [] }

abbrev server : Server String String
server = record {
  crypto = record toy_crypto { claims = λ s. some claims_of_root };
  authenticator = authenticator;
  codec = no_codec;
  parse_address = λ s. some s;
  webhook_url = "";
  metrics = λ a. record { status = 200; replayed = false; reply = Reply.plain "" };
}

abbrev pub visit : Env → Visit String
visit env = record { moment = moment; env = env; provider = silent; database_is_up = true }

abbrev pub empty_body : Body
empty_body = record {
  onboarding = none;
  transaction = none;
  review = Decoded.end_of_body;
  profile = none;
  owner = none;
  document = none;
  document_review = none;
  investigation = none;
  case_text = none;
  schedule = none;
  disposition = none;
  preference = none;
}

abbrev pub request : Method → List String → String → Body → Request
request method segments authorization body = record {
  method = method;
  segments = segments;
  authorization = authorization;
  idempotency_key = "key-1";
  page_size = "";
  page_token = "";
  status = "";
  body = body;
}

abbrev onboard_request : Request
onboard_request =
    request Method.post ("v1" ∷ "customers" ∷ []) "Bearer h.c.s"
      (record empty_body { onboarding = some onboarding })

abbrev start : State Repository String
start = record { store = new_repository; keys = no_keys }

serve-IsAuthorised_example :
    IsAuthorised server
      (visit onboard_env)
      onboard_request
      start
      (serve memory_ports server (visit onboard_env) onboard_request start).1
serve-IsAuthorised_example = serve-IsAuthorised server (visit onboard_env) onboard_request start

abbrev two_requests : List (Visit String × Request)
two_requests = (visit onboard_env, onboard_request) ∷ (visit review_env, onboard_request) ∷ []

serve_all-refines_example :
    (cs : List Call) × Calls server two_requests start cs
    × ((serve_all server two_requests start).store ≡ run cs new_repository)
serve_all-refines_example = serve_all-refines server two_requests start

abbrev anonymous : Request
anonymous =
    request Method.post ("v1" ∷ "customers" ∷ []) ""
      (record empty_body { onboarding = some onboarding })

is_unauthenticated : (serve memory_ports server (visit onboard_env) anonymous start).0.status ≡ 401
unfolding serve route match_path serve_endpoint roles_of authenticated admit authenticate
    bearer_token cut trim_space unauthenticated write_error write_json
is_unauthenticated = refl

refusal_changes_nothing_example :
    (serve memory_ports server (visit onboard_env) anonymous start).1.store ≡ new_repository
refusal_changes_nothing_example =
    refusal_changes_nothing server (visit onboard_env) anonymous start
      (omega (arith, is_unauthenticated))

abbrev list_request : Request
list_request = request Method.head ("v1" ∷ "customers" ∷ []) "Bearer h.c.s" empty_body

get_is_safe_example :
    (serve memory_ports server (visit onboard_env) list_request start).1.store ≡ new_repository
get_is_safe_example = get_is_safe server (visit onboard_env) list_request start refl

route-path_of_example :
    route
      (method_of (Endpoint.review_customer ReviewDecision.reject "c1"))
      (path_of (Endpoint.review_customer ReviewDecision.reject "c1"))
    ≡ some (Endpoint.review_customer ReviewDecision.reject "c1")
route-path_of_example =
    route-path_of (Endpoint.review_customer ReviewDecision.reject "c1") (refl, refl)

abbrev approved_store : State Repository String
approved_store = record { store = run approval new_repository; keys = no_keys }

abbrev payment_request : Request
payment_request =
    request Method.post ("v1" ∷ "transactions" ∷ []) "Bearer h.c.s"
      (record empty_body { transaction = some payment })

root_is_accepted :
    authenticate server.crypto server.authenticator moment "Bearer h.c.s" no_keys
    ≡ (ok root, no_keys)
unfolding authenticate bearer_token cut is_bearer to_upper trim_space split parts_of check_parts
    if_signed valid_signature accept is_refused role_of
root_is_accepted = refl

payment_is_routed :
    route Method.post ("v1" ∷ "transactions" ∷ []) ≡ some Endpoint.ingest_transaction
unfolding route match_path
payment_is_routed = refl

payment_is_accepted :
    (serve memory_ports server (visit payment_env) payment_request approved_store).0.status ≡ 201
unfolding serve route match_path serve_endpoint roles_of authenticated admit authenticate
    bearer_token cut is_bearer to_upper trim_space split parts_of check_parts if_signed
    valid_signature accept is_refused role_of require_roles dispatch Transactions.ingest_transaction
    with_body respond Transactions.ingested_response write_json ingest submit normalise run step
    onboard Onboarding.review create_customer review_customer decided get put refuse_if submitted
    upper_trim create_transaction store_transaction evaluate
payment_is_accepted = refl

ingestion_is_replayed_example :
    (res : IngestTransactionResult) × ((serve memory_ports server
        (visit payment_env)
        payment_request
        approved_store).0.reply
      ≡ Reply.ingested res)
    × (serve memory_ports server
          (visit retry_env)
          payment_request
          (serve memory_ports server (visit payment_env) payment_request approved_store).1
        ≡ (
          record {
            status = 200;
            replayed = true;
            reply = Reply.ingested (
                replay_of res.transaction
                  (serve memory_ports server
                    (visit payment_env)
                    payment_request
                    approved_store).1.store);
          },
          record {
            store =
                (serve memory_ports server
                  (visit payment_env)
                  payment_request
                  approved_store).1.store;
            keys = no_keys;
          },
        ))
ingestion_is_replayed_example =
    ingestion_is_replayed server (visit payment_env) (visit retry_env) payment_request
      approved_store root no_keys no_keys payment_is_routed root_is_accepted root_is_accepted refl
      refl (omega (arith, payment_is_accepted))
