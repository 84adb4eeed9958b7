-- ===== src/Lib.antt =====
-- Nina is an API gateway that takes its routes from OpenAPI documents (module
-- github.com/rivencove/nina). A configuration names backends, each with a document, and says which
-- of their operations to expose and with what middleware. From these a route table is built; the
-- router finds the route of a request, the route's chain of middleware stands around a handler that
-- forwards the request to its backend, with retries over a pool of hosts behind a circuit breaker.
-- All of it is one immutable runtime, which a reload replaces and retires. A scan guard bans clients
-- that ask for what the table does not serve.
--
-- The parts and their files:
-- - Router: internal/router/router.go. Add and Match on a tree of static and parameter children. The
--   children Shape, Adding and Walking read the tree as a map from method and template shape to
--   entries, which Matching compares a request with.
-- - RouteTable: internal/routetable/routetable.go, with what it reads of internal/config/config.go and
--   load.go. Paths has the helpers on names and paths, Glob the patterns of path.Match, Build the
--   loops of Build; the other children prove what a table that was built holds. The merger of
--   documents is an argument of `build`.
-- - Chain: internal/chain/chain.go. Assemble, for handlers of any type; Registry has the constructors
--   with Build and CloseAll, and Releasing what a build that fails closes.
-- - Config: the types of internal/config/config.go that the defaults and the validation read; Filling is
--   applyDefaults, Validation and Document are Validate, and Filled, Names and Validity prove what
--   holds of their results.
-- - Proxy: internal/proxy. Breaker is breaker.go, Pool is pool.go; Headers has the request that goes
--   upstream and Forward the loop of Do, both of proxy.go. Forward uses the other three the way Do
--   does: Pick with the last host excluded, Allow, RoundTrip, and the report to the breaker.
-- - Store: internal/store/store.go. The in-process limiter over a cache, the script that redis runs
--   with what is made of its reply, and the registry by which two routes share a limiter.
-- - Scanguard: internal/scanguard. Lengths is banLength, Memory the in-process store, Redis the shared
--   one with its scripts, Guard the guard over any store.
-- - Runtime: internal/runtime/build.go, the life of a runtime: Acquire, Release, Retire and close.
--   Its child Substitution is substituteParams, with the escaping of Go's net/url that it calls.
--   Assembly is Build, over what the documents, the route table and the proxies turn out to be, with
--   what it releases when a step fails. Preflight is addPreflightRoutes, with retryPolicy and
--   breakerConfig; its children follow a path from the routes to the router. Terminal is proxyHandler, which puts Substitution, Proxy.Forward and the writer
--   together, with CopyResponse of internal/proxy/proxy.go and writeUpstreamError of
--   internal/runtime/server.go.
-- - Serving: internal/runtime/server.go. Its own definitions are the recorder of the status, the
--   documents, the request id and the line in the log; Serve is ServeHTTP, from the runtime that it
--   acquires, through the guard, the router and the route's handler, to recover and finish; Reload is
--   NewServer and Reload. Recording, Answers and Handling prove what the client and the log get.
-- - Reqctx: internal/reqctx/reqctx.go, with the request as the gateway's own parts read it. Httperr:
--   internal/httperr/httperr.go.
-- - Mw: internal/mw. RateLimit, Cors, Headers and ApiKey are the handlers of four middleware with the
--   checks of their New. A handler takes the time, the request, its Info and a state that the
--   middleware share, and gives the actions on its response, how it ended, and the new Info and state.
-- - Http and Lru are not of the repository: the header maps of Go's net/http, and the interface of the
--   cache github.com/hashicorp/golang-lru/v2 with the laws that the proofs rely on, which leave open
--   what is evicted; Lru.Listed is a cache that meets them. Http.Writing is Go's http.ResponseWriter:
--   the headers that have gone out, the body, and the actions of a handler on them. A status of 100 to
--   199, other than 101, goes out by itself there and leaves the response open; that it went out is
--   not kept.
-- - Prelude: the shared helpers.
--
-- How the code is read:
-- - A type is a record or a data type with the source's fields and cases, a function is one by clauses,
--   and a method that changes its receiver returns the new one. An early return of an error is a
--   result of its own. What a mutex guards is one step; where code is not guarded, in the pool's
--   counters, in Do and in the runtime's life, other requests stand in the model: as functions that a
--   `Turn` carries, or as steps of a relation between any two atomic operations.
-- - Strings are lists of bytes. Upper and lower case, patterns and header names are read for ASCII.
-- - A time and a duration are natural numbers of nanoseconds (milliseconds in what redis runs), read
--   from the clock as an argument; a difference of times that would be negative is compared by adding
--   on the other side. Where a product may pass 2^63, in banLength and in the backoff, the int64 is
--   written out, and so is the pool's counter, whose conversion to int can be negative.
-- - The failure ratio, a float64, is a fraction, and the limiter's float64 estimate is its exact value
--   rounded down: rounding errors of floats are not modelled.
-- - A map is an association list in the order of insertion, where the code ranges over it in any order.
-- - Recursion is on lists, on trees or on the number of attempts left, so nothing runs out of fuel;
--   the attempts of Do are as many as the code computes, and the rounds of banLength the strikes.
--
-- Not modelled: the parsing, merging and validation of documents (internal/oas) and their fetching
-- (internal/specsrc), the decoding of configurations, the middleware for tokens and for schemas
-- (internal/mw/authjwt, internal/mw/validate), the watching of files (internal/runtime/watch.go), and
-- what is only glue: internal/admin, the collectors of internal/observ, cmd/nina.
pub mod Prelude
pub mod Chain
pub mod Config
pub mod Http
pub mod Httperr
pub mod Lru
pub mod Mw
pub mod Proxy
pub mod Reqctx
pub mod RouteTable
pub mod Router
pub mod Runtime
pub mod Scanguard
pub mod Serving
pub mod Store
