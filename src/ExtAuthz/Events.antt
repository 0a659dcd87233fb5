-- ===== src/ExtAuthz/Events.antt =====
-- What the check service tells the metrics of controlplane/src/observability/metrics.rs and the access
-- log, in order, and what surrounds one request. Times that are only recorded are left out.
use open_api_gateway.Prelude.{ℕ, String, Option, List}
use open_api_gateway.Prelude.Result.{Result}
use open_api_gateway.Config.Types.{Platform, GatewayConfig}
use open_api_gateway.Auth.Types.{Jwt, JwksKey}
use open_api_gateway.Auth.Cache.{JwksCache}
use open_api_gateway.RateLimit.{World}

pub data PluginErrorType : Type 0 where
  runtime : PluginErrorType
  memory : PluginErrorType
  timeout : PluginErrorType

unfoldable pub as_str : PluginErrorType → String
as_str runtime = "runtime"
as_str memory = "memory"
as_str timeout = "timeout"

pub record AccessLogEntry : Type 0 where
  pub request_id : String
  pub remote_addr : String
  pub host : String
  pub method : String
  pub path : String
  pub route : String
  pub status : ℕ
  pub auth_subject : Option String
  pub rate_limit_mode : String
  pub upstream_service : String

pub data Event : Type 0 where
  log : AccessLogEntry → Event
  record_request : String → String → ℕ → Event
  record_auth_failure : String → String → Event
  record_rate_limit_allowed : String → Event
  record_rate_limit_denied : String → Event
  record_rate_limit_degraded : String → Event
  inc_inflight : Event
  dec_inflight : Event
  record_overload : Event
  record_plugin_duration : String → String → String → ℕ → Event
  record_plugin_chain_duration : String → ℕ → Event
  record_plugin_error : String → String → String → Event
  record_plugin_short_circuit : String → String → ℕ → Event
  -- `execute_log` of the plugin engine, with the status
  execute_log : ℕ → Event

pub record PluginRequest : Type 0 where
  pub route_name : String
  pub host : String
  pub method : String
  pub path : String
  pub headers : List (String × String)

pub data PluginAccessResult : Type 0 where
  continue : List (String × String) → List (String × String) → ℕ → PluginAccessResult
  short_circuit : String → ℕ → Option String → List (String × String) → ℕ → PluginAccessResult
  error : String → String → PluginErrorType → ℕ → PluginAccessResult

-- The configuration, the time, the caches of the keys and what they hold after the wait for a
-- refresh, what the plugin engine answers if there is one, and what the rate limiter meets.
pub record Env (p : Platform) (j : Jwt) : Type 1 where
  pub config : GatewayConfig p
  pub now : ℕ
  pub caches : List (JwksCache j)
  pub refreshed : String → List (JwksKey j)
  pub execute_access : Option (PluginRequest → Result String PluginAccessResult)
  pub world : World p
  pub now_secs : ℕ
