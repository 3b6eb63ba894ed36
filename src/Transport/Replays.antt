-- ===== src/Transport/Replays.antt =====
-- internal/transport/httpapi/handler.go: an ingestion that is sent twice.
use financial_crime_complian.Transport.Handlers.Transactions
use financial_crime_complian.Transport.Api.{
  Server, serve, serve_endpoint, authenticated, admit, require_roles, Visit, State, is_allowed,
  memory_ports, dispatch,
}
use financial_crime_complian.Effects.{Result, ok, err}
use financial_crime_complian.Application.Transactions.{
  IngestTransactionResult, IngestTransactionCommand, ingest,
}
use financial_crime_complian.Memory.{Repository}
use financial_crime_complian.Transport.Respond.{answer, respond, with_body, reject}
use financial_crime_complian.Common.{
  ◌<◌, ◌≡◌, arith, refl, List, some, true, ap, Option, subst, sym, none, ◌∙◌,
}
use financial_crime_complian.Transport.Requests.{
  Request, Reply, Response, invalid_json, write_error, write_json,
}
use financial_crime_complian.Transport.Routes.{Endpoint, route, roles_of, makers}
use financial_crime_complian.Auth.Tokens.{Role, Principal, authenticate}
use financial_crime_complian.Auth.Keys.{KeyCache}
use financial_crime_complian.Application.Env.{Env}
use financial_crime_complian.Platform.Ingestion.{replay_of, ingest_retry}
use financial_crime_complian.Memory.Ports.{transaction_port}

module _ {B K : Type 0} (server : Server B K) where
  -- What a request that is admitted gets, and the state that it leaves.
  served :
      (v : Visit K) (q : Request) (s : State Repository K) (e : Endpoint) (roles : List Role)
      (by : Principal) (keys : KeyCache K)
      → route q.method q.segments ≡ some e
      → roles_of e ≡ some roles
      → authenticate server.crypto server.authenticator v.moment q.authorization s.keys
        ≡ (ok by, keys)
      → is_allowed roles by.role ≡ true
      → serve memory_ports server v q s ≡ (
        (dispatch memory_ports server v e by q s.store).0,
        record { store = (dispatch memory_ports server v e by q s.store).1; keys = keys },
      )
  unfolding serve serve_endpoint authenticated admit require_roles
  served v q s e roles by keys found named known allowed =
      rw (found, serve, named, serve_endpoint, known, admit, allowed) refl

  -- The answer of ingestTransaction below 400 comes from a result of the service.
  accepted :
      (x : Result IngestTransactionResult) (t : Repository)
      → (answer Transactions.ingest_failure Transactions.ingested_response x).status < 400
      → (res : IngestTransactionResult) × (x ≡ ok res)
  unfolding Transactions.ingest_failure
  accepted (ok res) t h = (res, refl)
  accepted (err e) t h = absurd (ground arith)

  abbrev replayed_response : IngestTransactionResult → Repository → Response
  replayed_response res t = record {
    status = 200;
    replayed = true;
    reply = Reply.ingested (replay_of res.transaction t);
  }

  reply_of :
      (res : IngestTransactionResult)
      → (Transactions.ingested_response res).reply ≡ Reply.ingested res
  unfolding Transactions.ingested_response
  reply_of res = ground arith

  module _ (env env' : Env) (same : env.wide ≡ env'.wide) (by : Principal) (r : Repository) where
    -- After an accepted ingestion, of the first call.
    again :
        (cmd : IngestTransactionCommand)
        → (respond Transactions.ingest_failure Transactions.ingested_response
            (ingest transaction_port env cmd)
            r).0.status
          < 400
        → (res : IngestTransactionResult) × ((respond Transactions.ingest_failure
              Transactions.ingested_response
              (ingest transaction_port env cmd)
              r).0.reply
            ≡ Reply.ingested res)
          × (respond Transactions.ingest_failure Transactions.ingested_response
                (ingest transaction_port env' cmd)
                (ingest transaction_port env cmd r).1
              ≡ (
                replayed_response res (ingest transaction_port env cmd r).1,
                (ingest transaction_port env cmd r).1,
              ))
    unfolding respond
    again cmd low =
        let (res, e) = accepted (ingest transaction_port env cmd r).0 r low in
        (
          res,
          rw e (reply_of res),
          rw
              (ingest_retry env env' cmd r (ingest transaction_port env cmd r).1 res same
                (ap (λ x. (x, (ingest transaction_port env cmd r).1)) e))
              (unfold Transactions.ingested_response in refl),
        )

    -- The body of the second request is that of the first.
    again_with :
        (body : Option IngestTransactionCommand)
        (command : IngestTransactionCommand → IngestTransactionCommand)
        (first : Response × Repository)
        → with_body body
            (λ cmd.
              respond Transactions.ingest_failure Transactions.ingested_response
                (ingest transaction_port env (command cmd)))
            r
          ≡ first
        → first.0.status < 400
        → (res : IngestTransactionResult) × (first.0.reply ≡ Reply.ingested res)
          × (with_body body
                (λ cmd.
                  respond Transactions.ingest_failure Transactions.ingested_response
                    (ingest transaction_port env' (command cmd)))
                first.1
              ≡ (replayed_response res first.1, first.1))
    unfolding with_body invalid_json write_error write_json reject respond
    again_with none command first e low = absurd (ground arith)
    again_with (some cmd) command first e low =
        subst
          (λ x.
            (res : IngestTransactionResult) × (x.0.reply ≡ Reply.ingested res)
            × (respond Transactions.ingest_failure Transactions.ingested_response
                  (ingest transaction_port env' (command cmd)) x.1
                ≡ (replayed_response res x.1, x.1)))
          e (again (command cmd) (subst (λ x. x.0.status < 400) (sym e) low))

  module _ (v v' : Visit K) (q : Request) (s : State Repository K) (by : Principal)
      (keys keys' : KeyCache K)
      (found : route q.method q.segments ≡ some Endpoint.ingest_transaction)
      (known : authenticate server.crypto server.authenticator v.moment q.authorization s.keys
        ≡ (ok by, keys))
      (known' : authenticate server.crypto server.authenticator v'.moment q.authorization keys
        ≡ (ok by, keys'))
      (allowed : is_allowed makers by.role ≡ true) (same : v.env.wide ≡ v'.env.wide) where
    first : Response × Repository
    first = dispatch memory_ports server v Endpoint.ingest_transaction by q s.store

    second :
        first.0.status < 400
        → (res : IngestTransactionResult) × (first.0.reply ≡ Reply.ingested res)
          × (dispatch memory_ports server v' Endpoint.ingest_transaction by q first.1
              ≡ (replayed_response res first.1, first.1))
    unfolding first dispatch Transactions.ingest_transaction
    second low =
        again_with v.env v'.env same by s.store q.body.transaction
          (λ cmd. record cmd { actor = by.subject; idempotency_key = q.idempotency_key }) first refl
          low

    after_first :
        serve memory_ports server v q s ≡ (first.0, record { store = first.1; keys = keys })
    unfolding first roles_of
    after_first = served v q s Endpoint.ingest_transaction makers by keys found refl known allowed

    -- Sending an ingestion twice is safe: once POST /v1/transactions has been answered below 400, the
    -- same request, sent again by the same principal while its token is accepted, is answered with
    -- 200 and Idempotency-Replayed, with the transaction of the first answer, and the repository
    -- stays as it is.
    pub ingestion_is_replayed :
        (serve memory_ports server v q s).0.status < 400
        → (res : IngestTransactionResult) × ((serve memory_ports server v q s).0.reply
            ≡ Reply.ingested res)
          × (serve memory_ports server v' q (serve memory_ports server v q s).1 ≡ (
            replayed_response res (serve memory_ports server v q s).1.store,
            record { store = (serve memory_ports server v q s).1.store; keys = keys' },
          ))
    unfolding roles_of
    ingestion_is_replayed low =
        subst
          (λ x.
            (res : IngestTransactionResult) × (x.0.reply ≡ Reply.ingested res)
            × (serve memory_ports server v' q x.1
                ≡ (replayed_response res x.1.store, record { store = x.1.store; keys = keys' })))
          (sym after_first)
          (let (res, told, again') = second (subst (λ x. x.0.status < 400) after_first low) in
            (
              res,
              told,
              served v' q (record { store = first.1; keys = keys }) Endpoint.ingest_transaction
                    makers by keys' found refl known' allowed
                  ∙ ap (λ x. (x.0, record { store = x.1; keys = keys' })) again',
            ))
