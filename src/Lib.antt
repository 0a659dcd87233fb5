-- ===== src/Lib.antt =====
-- OpenApiGateway: the configuration of an API gateway, the Envoy bootstrap made from it, and the
-- services that Envoy asks whether to let a request through and how it is configured.
--
-- The program reads a configuration (shared/src/config_types.rs), validates it
-- (controlplane/src/config/loader.rs, validation.rs) and generates Envoy's bootstrap from it
-- (controlplane/src/config/envoy_gen.rs, envoy_ext_authz.rs). Envoy then sends each request to the check
-- service (controlplane/src/extauthz/), which matches a route, runs the plugins, validates the token
-- (controlplane/src/auth/) and asks the rate limiter (controlplane/src/ratelimit/).
--
-- The files, and what each is about:
--   Prelude    the library's names, tests on numbers, lists, Result, and the methods of `str`
--   Config     Types and Errors: the records of the configuration and its errors. Validation: the five
--              checks, as functions to the list of errors that the source pushes. Validity: what a
--              valid configuration is, said without the checks
--   Envoy      generate_envoy_config and its builders. A panic of the source is an outcome of its own
--   RateLimit  Bucket: LocalBucket. RateLimit: RateLimiter: check and ping. Script: the Lua script
--              that Redis runs
--   Auth       Validator: validate_token. Cache: JwksCache, the registry and validate_with_refresh.
--              Registry: how the caches are made
--   ExtAuthz   RouteMatch: match_route. Headers: helpers.rs. PluginStep, AuthStep, LimitStep and Handler:
--              the steps of check_inner, and check
--   Plugins    controlplane/src/plugins/. Lua: its types, and what it takes from the Lua crate. Sdk: the
--              calls that plugins make. Registry: the chains of a configuration. Vm: a thread's
--              interpreter and its instances. Executor and Engine: the phases, and the reload
--   Xds        Snapshot: the versions and the responses of a snapshot. Stream: what a stream of
--              controlplane/src/xds/ answers, and the status it keeps. Resources and Builders: the
--              messages of resources.rs and the build of a snapshot. Server: the registry, the control
--              plane, the loop and the end of a stream and, in Running, rebuilds that overlap
--   ExtProc    controlplane/src/extproc/: the answer to a message, and the loop over a stream
--   Admin      controlplane/src/admin/: the shared state, the status endpoints and, in Reload, the reload
--              of the configuration with all that it changes
--   Observability  Metrics: the counters of observability/metrics.rs, and what each call adds to them
--   Startup    controlplane/src/startup.rs: from the environment to the servers that are up
--   Tests      a sample configuration and request, and the theorems applied to them
--
-- State is passed explicitly: an operation on the limiter or the cache takes the state and what the
-- outside answers, and returns the state after it. `check_inner` returns the limiter, the metrics and
-- log entries it recorded, as a list of events in their order, and the response.
--
-- Parameters stand for code that is not in the repository: `Platform` for floats, serde_yaml values
-- and the crate url, `Jwt` for the crate jsonwebtoken, `Http` for the crate http, `World` for Redis
-- and the clocks, `Script.Lua` for the numbers of Redis' interpreter, `Plugins.Lua` for the crate
-- mlua, the plugin directory and JSON schemas, `Prost` for the encoding of protobuf messages,
-- `Files` for serde_yaml, `Bytes` for checksums, `Outside` for the environment, files, sockets and
-- answers that startup meets. A run of Lua code is given as the tree of the calls it makes to the
-- functions that the program offers it, each with what follows on its result. `Env` holds what
-- surrounds one request, with the keys that a cache holds after the wait for its refresh. A theorem
-- that needs more of them names it as a hypothesis: `CountsExactly` is the arithmetic of IEEE 754 on
-- whole numbers up to 2 ^ 53, `Bounds` what it says of `min` and of subtraction below a bound, and
-- the theorem on the script asks that both minima agree.
--
-- Every loop is a recursion on the list it runs over. The only fuel is that of `decimal`, one more than
-- the number printed, and each round divides it by ten.
--
-- Not modelled: the sandbox of the plugin engine, which only sets up the Lua crate, tracing,
-- logs, and the registration and text encoding of the metrics. The check service takes what the plugin
-- engine answers to a request as a function in `Env`. Of the parts that are modelled, the background
-- loops, the tracing spans, recorded durations, the content type that axum adds to a body and the
-- waiting for full channels are left out, a HeaderMap has one value for each name, a request runs on
-- one thread with the plugin runtime that it began with, a plugin calls the functions that were
-- installed for its own call, and reloads run one after another but for the rebuilds of the snapshot.
pub mod Prelude
pub mod Config
pub mod Envoy
pub mod RateLimit
pub mod Auth
pub mod ExtAuthz
pub mod Plugins
pub mod Xds
pub mod ExtProc
pub mod Admin
pub mod Observability
pub mod Startup
pub mod Tests
