-- ===== src/Lib.antt =====
-- A verification library of the API gateway: its circuit breaker, its router, its authorization, its
-- rate limiting, its configuration, its middlewares and the server that is put together from them,
-- as they are written in Go under internal/.
--
-- The server wraps its handlers in middlewares. In the order in which they run: the redirect to
-- HTTPS, the error handling, the correlation id, tracing, metrics, logging, the input validation,
-- the authorization, the rate limiting, the security headers; innermost is a multiplexer with the
-- health checks, the metrics and the default handler, which asks the router and calls the proxy.
--
-- The authorization middleware finds the route of the request in its
-- context, takes a token from a cookie, validates it, asks whether the session is revoked, and
-- evaluates the policy of the route. The rate-limiting middleware collects the limits that apply and
-- charges one token bucket for each. The router maps a method and a path to the route with the
-- smallest priority number. The proxy builds the URL of the backend request and sends it, with
-- retries, under a circuit breaker.
--
-- Files and the code they model:
--   Base       shared types and lemmas: tests, lists, byte strings, maps, integers
--   Config     internal/config/config.go: the records; Config/Defaults has setDefaults,
--              Config/Validate Validate, Config/Load Load, Reload, loadFromFile and applyEnvOverrides
--   Ttl        the expiring maps in internal/ratelimit/memory.go, internal/auth/policy.go and
--              internal/auth/revocation.go: `get`, `set`, `cleanup`
--   Breaker    `CircuitBreaker` of internal/circuitbreaker/circuitbreaker.go: `before_request` is
--              beforeRequest, `on_failure` onFailure, `on_success` onSuccess, `set_state` setState;
--              Breaker/Execute has Execute and the interleavings of requests as lists of events
--   Manager    the `Manager` of the same file: `get`, `reset_one` (Reset), `reset_all` (ResetAll)
--   Router     internal/router/router.go: `load_routes`, `compile_route`, `match`; Router/Text has
--              patternToRegex, Router/Priority calculatePriority, Router/Sort the order of the sort
--   Proxy      internal/proxy/proxy.go: `build_target_url` and `forward_with_retry`; Proxy/Headers has
--              createBackendRequest's headers and copyResponseHeaders, Proxy/Forward has Forward
--   Context    the values of a request's context, from internal/auth/context.go,
--              internal/middleware/chain.go and internal/logger/logger.go
--   Auth       internal/auth: Context, Policy, Extractor, Jwt, Revocation; Auth/Handler composes them
--              into `Middleware.Handler` of internal/auth/middleware.go
--   RateLimit  internal/ratelimit: TokenBucket, Key (keygen.go), Limiter (limiter.go, storage.go and
--              memory.go), Middleware (middleware.go)
--   Http       the handlers, requests and response writers of net/http, as the middlewares use them
--   Middleware internal/middleware: Chain (chain.go), Security (security.go), Input
--              (input_validation.go), Errors (error_handling.go, recovery.go), Writer
--              (errorResponseWriter, and ResponseWriter of util.go in Writer/Sized), Correlation, and
--              Observe (logging.go, internal/metrics/middleware.go, internal/tracing/middleware.go)
--   Health     internal/health/health.go: the manager, its checks and its handlers
--   Server     internal/server/server.go: `new` is New; Server/Pipeline has setupRouter and the default
--              handler, Server/Stages the authorization and the limits as middlewares, Server/Tls
--              buildTLSConfig; Server/Gates, Server/Laws and Server/Refused prove what passes
--   A module Laws, or one named for what it proves, stands under each; a module Tests holds concrete
--   runs.
--
-- State is passed explicitly: an operation takes the record of its component and gives back the new
-- one. A critical section under a mutex is one function, and takes the clock as an argument, in
-- nanoseconds. Loops are structural recursion on the list they walk; the bubble sort recurses on the
-- number of its rounds and comparisons, and the retries on how many are left: the source's own
-- bounds. No fuel is used.
--
-- A handler answers a request by a list of calls of its response writer, an ending (it returns or
-- panics) and a new state; what a client sees is computed from the calls. Names of headers are
-- written in their canonical form. A middleware is a function from handlers to handlers, so that
-- the server composes them as the source does.
--
-- Parameters of the model: the JWT library (`JwtLibrary`), the engine of package regexp
-- (`RegexpLibrary`), the answer of the revocation service, a storage backend (`Storage`), the
-- replies of the proxy's HTTP client, url.Parse, http.NewRequestWithContext and the injection of a
-- trace context, the arithmetic of float64 (`Float64`), time.ParseDuration, the environment, the
-- file system and the parsers of YAML and JSON (`Environment`, `Files`), what net/http's ServeMux
-- does with a path, the context that the tracing library makes, and the encoding of the bodies of
-- the authorization's and the limits' answers (`Parts`). The server takes the proxy as an
-- interface, `forward`: what it writes, how it ends and what becomes of the backend's state;
-- Proxy/Forward stands by itself. What is assumed of them is named where it is used:
-- `IsDocumented`, `QuotesLiterally`, `IsIeee`, `InjectsOnly`.
--
-- Not modelled: the streaming of a proxied body, and what a retry sends of it; listening, signals
-- and the shutdown of the server, which are net/http's and the operating system's; Redis; and the
-- output of logs, metrics and traces; and informational answers (1xx), which no handler sends.
-- Counters are plain numbers, limits and windows of the rate limiting are not negative, durations
-- are not negative except where the configuration is validated, and upper-casing, lower-casing and
-- white space are those of ASCII.
pub mod Base
pub mod Config
pub mod Ttl
pub mod Breaker
pub mod Manager
pub mod Router
pub mod Proxy
pub mod Context
pub mod Auth
pub mod RateLimit
pub mod Http
pub mod Middleware
pub mod Health
pub mod Server
