-- ===== src/Lib.antt =====
-- Financial crime compliance platform: the domain rules, the services, the in-memory repository and
-- the HTTP interface.
--
-- Parts. internal/domain holds the data and two rule engines: RiskEngine.Assess scores a new
-- customer, TransactionMonitoringEngine.Evaluate finds what is suspicious in a transaction. The
-- services of internal/application check and trim the arguments of a request, build the records and
-- their audit events, and call a repository through an interface. internal/infrastructure/memory
-- implements the interfaces with maps under one mutex. Two workers run in the background: one
-- screens customers on a schedule, one delivers notifications from an outbox; both take work under
-- a lease and wait longer after each failure. internal/transport/httpapi serves HTTP: it routes a
-- request, authenticates its token (internal/auth), checks the role, calls a service under the
-- subject of the token, and turns an error into a status. Around it stand the rate limiter of
-- internal/security and the metrics of internal/observability.
--
-- Files.
--   Common      Go's maps as association lists (Dict), strings.TrimSpace and ToUpper (Text), int64
--               (Int), sort.Slice (Sort), list helpers (Lists), Boolean tests (Tests)
--   Domain      internal/domain: one module per file; Risk/Score and Risk/Rating, Monitoring/Rules
--               and the end of Transaction hold the theorems
--   Effects     a method as a function from the state to a result and the next state
--   Application internal/application: onboarding.go (Onboarding), transactions.go, cases.go (Cases),
--               due_diligence.go, queries.go, delivery.go; screening.go is Screening (ScreenCustomer
--               with its loops in Screening/Gather, List, Disposition) and Worker (schedules,
--               notifications, RunDue; the retry delays in Worker/Backoff, their laws in Worker/Retry)
--   Memory      internal/infrastructure/memory/repository.go: the state, and one module for each
--               group of methods; Ports fills the interfaces of the services; Idempotency,
--               Leases, Paging and Walk hold the theorems on single methods
--   Platform    the services over the repository as one system: Call names the calls that write,
--               step runs one, run a history of them; Write reduces a call to at most one write of
--               the repository; Audit, Customers, Ingestion, Investigations and Atomic hold the theorems on
--               histories
--   Providers   internal/infrastructure/screening/http_provider.go: the judgement of a response, the
--               retries and the circuit breaker (Http), and their laws (Breaker); demo_provider.go
--               (Demo), and its scores (Similarity)
--   Auth        internal/auth/auth.go: the key cache (Keys) and Authenticate (Tokens), with their
--               theorems (Freshness, Authentic)
--   Transport   internal/transport/httpapi/handler.go: what is read of a request (Requests, Parameters),
--               the routes and their roles (Routes), the frame of a handler (Respond), every handler
--               (Handlers), and NewHandler as the function serve (Api); Effects and Dispatch reduce a
--               handler to at most one call of Platform, Harmless looks at its status; Authority,
--               Histories, FourEyes, Refusals, Safe, Urls, Replays and Missing hold the theorems
--   Security    internal/security/http.go: the rate limiter (Limiter), and its laws (Budget, Limits, Waiting)
--   Senders     internal/infrastructure/notification: router.go and webhook.go (Router), smtp.go (Smtp,
--               with its laws in Headers, Transcript and Letters)
--   Observability  internal/observability/metrics.go: the registry (Metrics), and its histograms
--               against the requests (Histogram)
--   Tests       concrete data, and the theorems applied to it
--
-- Correspondence. An operation keeps the name of its Go method in snake case; an interface is a record of
-- operations over any state type (CustomerRepository, TransactionRepository, ...), and a service is
-- a function of that record. Guards stand in the order of the code. Where several checks give the
-- same error they are one test. An error drops the value that Go returns beside it. A type of Go
-- texts with constants has a constructor for each constant and `other` for the rest.
--
-- Conventions. A time is the number of nanoseconds since the zero time of Go, so 0 is IsZero, and
-- durations are nanoseconds. Amounts are unbounded integers: they are compared and stored, never
-- added. A text is a valid UTF-8 string by code points, and `len` counts bytes. A map is a list in
-- order of insertion; no theorem fixes the entries, so each holds for every order of `range`.
-- Loops are structural recursion; the doubling loop of a backoff recurses on the attempts that are
-- left, and printing a number on as many rounds as the number, which has fewer digits; no loop
-- is cut short by fuel. A method holds the mutex throughout, so it is one step, and a history is
-- an order in which concurrent calls take the mutex. A screening reads first and writes once at its
-- end: its one write stands in a history with whatever it has gathered, and so do the claim and the
-- completion of a job.
--
-- Parameters. The clock and the identifiers of newID (random bytes) that a call draws, and the case
-- table of unicode past ASCII (Env); the screening provider; the sender of notifications; the page
-- token, which is base64 of JSON (TokenCodec); net/mail's ParseAddress.
--
-- The HTTP provider takes the answer to each attempt, its JSON decoded, and calls of it one after
-- the other. Authentication takes the decoders of a token, the checks of HMAC and RSA signatures,
-- and the answer of the key endpoint.
--
-- A request comes with its path cleaned, unescaped and split, and with its body decoded into each
-- type that a handler may ask for (Body), since net/http and encoding/json are the library's. The
-- mail server answers each call of net/smtp with success or an error; the answer of a webhook is
-- given. The demo provider takes the tables of unicode past ASCII (CharTables).
--
-- The rate limiter counts tokens in fractions that make every amount a natural number, and the
-- metrics count nanoseconds, where the code has floats: the rounding is left out.
--
-- Not modelled: the PostgreSQL repository, whose behaviour is in its SQL; security headers, logs and
-- tracing, which do not change a result; the text that the metrics are printed in; the clients
-- of remote services; start-up code, migrations, deployment and the web front end.
pub mod Common
pub mod Domain
pub mod Effects
pub mod Application
pub mod Memory
pub mod Platform
pub mod Providers
pub mod Auth
pub mod Transport
pub mod Security
pub mod Senders
pub mod Observability
pub mod Tests
