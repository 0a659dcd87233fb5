-- ===== src/Admin.antt =====
-- controlplane/src/admin/: the state that the control plane shares, and the handlers of the admin
-- API. A handler is one step, with no other reload beside it: the program takes the lock of the
-- configuration only at the end of a reload, after those of the plugin runtime and the snapshot
-- (Xds/Server/Running.antt has the parts of overlapping rebuilds). The metrics endpoint only encodes
-- the crate prometheus' counters.
pub mod Reload
use open_api_gateway.Prelude.{
  ℕ, ◌<>◌, String, Bool, true, false, ◌&&◌, Option, none, some, List, [], ◌∷◌, length,
  if◌then◌else◌,
}
use open_api_gateway.Prelude.Result.{Result, ok, err}
use open_api_gateway.Config.Types.{Platform, GatewayConfig}
use open_api_gateway.Auth.Types.{Jwt}
use open_api_gateway.Auth.Cache.{JwksCache, all_healthy}
use open_api_gateway.RateLimit.{RateLimiter, ping}
use open_api_gateway.Plugins.Lua.{Lua, PluginEngine}
use open_api_gateway.Xds.Stream.{EnvoyConnectionStatus}
use open_api_gateway.Xds.Builders.{Prost}
use open_api_gateway.Xds.Server.{XdsControlPlane, statuses_of}

pub data ReloadResult : Type 0 where
  success : ReloadResult
  validation_error : ReloadResult

unfoldable pub as_str : ReloadResult → String
as_str success = "success"
as_str validation_error = "validation_error"

pub record ReadyResponse : Type 0 where
  pub status : ℕ
  pub is_ok : Bool
  pub config_loaded : Bool
  pub redis_ok : Bool
  pub jwks_ok : Bool
  pub last_config_reload_unix : ℕ

pub record ConfigStatusResponse : Type 0 where
  pub active_config_version : ℕ
  pub active_config_sha256 : String
  pub last_reload_result : String
  pub last_reload_error : Option String
  pub last_reload_unix : ℕ

pub record XdsStatusResponse : Type 0 where
  pub enabled : Bool
  pub connected_envoys : ℕ
  pub peers : List EnvoyConnectionStatus

-- The answers of the reload: 200 with the checksums, or 400 with the error.
pub data ReloadResponse : Type 0 where
  reloaded : (previous_sha256 new_sha256 : String) → (reload_timestamp : ℕ) → ReloadResponse
  refused : (error : String) → (reload_timestamp : ℕ) → ReloadResponse

pub record ConfigState (p : Platform) : Type 0 where
  pub config : GatewayConfig p
  pub sha256 : String
  pub last_reload_unix : ℕ
  pub last_reload_result : ReloadResult
  pub last_reload_error : Option String

-- `metrics` are the results that `record_config_reload` counted, the latest first.
pub record AppState {p : Platform} (j : Jwt) (l : Lua p) (q : Prost) : Type 0 where
  pub config_state : ConfigState p
  pub config_path : String
  pub envoy_config_path : Option String
  pub jwks_registry : List (JwksCache j)
  pub rate_limiter : RateLimiter p
  pub metrics : List String
  pub concurrency_limit : ℕ
  pub tracing_enabled : Bool
  pub plugin_engine : Option (PluginEngine l)
  pub xds : Option (XdsControlPlane q.Any)

-- What the handlers take from other crates: a checksum of bytes, their text, and
-- `Semaphore::MAX_PERMITS`.
pub record Bytes : Type 1 where
  pub Raw : Type 0
  pub sha256_hex : Raw → String
  pub from_utf8_lossy : Raw → String
  pub max_permits : ℕ

abbrev or_permits : ℕ → Option ℕ → ℕ
or_permits max none = max
or_permits max (some n) = n

module _ {p : Platform} (j : Jwt) (l : Lua p) (q : Prost) (b : Bytes) where
  unfoldable pub build_state :
      GatewayConfig p
      → b.Raw
      → String
      → Option String
      → List (JwksCache j)
      → RateLimiter p
      → Option (PluginEngine l)
      → Option (XdsControlPlane q.Any)
      → ℕ
      → AppState j l q
  build_state config raw config_path envoy_path jwks limiter engine xds now = record {
    config_state = record {
      config = config;
      sha256 = b.sha256_hex raw;
      last_reload_unix = now;
      last_reload_result = success;
      last_reload_error = none;
    };
    config_path = config_path;
    envoy_config_path = envoy_path;
    jwks_registry = jwks;
    rate_limiter = limiter;
    metrics = [];
    concurrency_limit = or_permits b.max_permits config.gateway.max_concurrent_requests;
    tracing_enabled = config.observability.tracing.enabled;
    plugin_engine = engine;
    xds = xds;
  }

module _ {p : Platform} {j : Jwt} {l : Lua p} {q : Prost} where
  -- `readyz`, given what Redis answers and the time
  unfoldable pub readyz : Bool → Bool → ℕ → AppState j l q → AppState j l q × ReadyResponse
  unfolding ping all_healthy
  readyz answers reconnects now state =
      let (limiter, redis_ok) = ping p answers reconnects state.rate_limiter in
      let jwks_ok = all_healthy j now state.jwks_registry in
      (
        record state { rate_limiter = limiter },
        record {
          status = if redis_ok && jwks_ok then 200 else 503;
          is_ok = redis_ok && jwks_ok;
          config_loaded = true;
          redis_ok = redis_ok;
          jwks_ok = jwks_ok;
          last_config_reload_unix = state.config_state.last_reload_unix;
        },
      )

  unfoldable pub config_status : AppState j l q → ConfigStatusResponse
  unfolding as_str
  config_status state = record {
    active_config_version = state.config_state.config.version;
    active_config_sha256 = state.config_state.sha256;
    last_reload_result = as_str state.config_state.last_reload_result;
    last_reload_error = state.config_state.last_reload_error;
    last_reload_unix = state.config_state.last_reload_unix;
  }

  unfoldable pub xds_status : AppState j l q → XdsStatusResponse
  unfolding statuses_of
  xds_status state = elim state.xds [
    | none ↦ record { enabled = false; connected_envoys = 0; peers = [] }
    | some xds ↦ record {
      enabled = true;
      connected_envoys = length xds.connections;
      peers = statuses_of xds.connections xds.statuses;
    }
  ]
