-- ===== src/Config/Types.antt =====
-- shared/src/config_types.rs: the configuration that the YAML file is parsed into. Integers of the
-- source's unsigned types are natural numbers. Its `f64` and `serde_yaml::Value`, with what the
-- program calls on them, are the fields of `Platform`.
use open_api_gateway.Prelude.{ℕ, String, Bool, Option, List}

-- What the program takes from the language's floats and from third-party crates.
pub record Platform : Type 1 where
  -- `f64`, its comparisons and its arithmetic
  pub F64 : Type 0
  pub of_u64 : ℕ → F64
  pub le : F64 → F64 → Bool
  pub lt : F64 → F64 → Bool
  pub add : F64 → F64 → F64
  pub sub : F64 → F64 → F64
  pub mul : F64 → F64 → F64
  pub div : F64 → F64 → F64
  pub min : F64 → F64 → F64
  -- `x.floor() as u64`, `x.ceil() as u64`
  pub floor : F64 → ℕ
  pub ceil : F64 → ℕ
  -- `Duration::from_nanos(n).as_secs_f64()`
  pub as_secs : ℕ → F64
  -- `serde_yaml::Value`, built from its parts; a `Mapping` is given by its entries in order
  pub Value : Type 0
  pub string : String → Value
  pub bool : Bool → Value
  pub number : ℕ → Value
  pub sequence : List Value → Value
  pub mapping : List (String × Value) → Value
  -- `serde_yaml::to_string(v).ok()`
  pub to_yaml : Value → Option String
  -- `url::Url::parse(s).is_ok()`
  pub is_url : String → Bool

pub record GatewayServer : Type 0 where
  pub listen_address : String
  pub admin_address : String
  pub request_timeout_ms : ℕ
  pub idle_timeout_ms : ℕ
  pub max_request_body_bytes : ℕ
  pub trust_forwarded_headers : Bool
  pub extauthz_address : Option String
  pub max_concurrent_requests : Option ℕ

pub record AuthProvider : Type 0 where
  pub name : String
  pub issuer : String
  pub audience : String
  pub jwks_uri : String
  pub cache_ttl_seconds : ℕ
  pub clock_skew_seconds : ℕ

pub record AuthConfig : Type 0 where
  pub providers : List AuthProvider

pub record SurvivabilityMode (p : Platform) : Type 0 where
  pub enabled : Bool
  pub fallback_capacity : ℕ
  pub fallback_refill_rate_per_sec : p.F64

pub record RateLimitsConfig (p : Platform) : Type 0 where
  pub redis_address : String
  pub redis_db : ℕ
  pub redis_key_prefix : String
  pub default_timeout_ms : ℕ
  pub fail_open : Bool
  pub survivability_mode : SurvivabilityMode p

pub record RouteRateLimit (p : Platform) : Type 0 where
  pub bucket_capacity : ℕ
  pub refill_rate_per_sec : p.F64
  pub key_by : String

pub record UpstreamConfig : Type 0 where
  pub service : String
  pub request_timeout_ms : ℕ
  pub retries : ℕ

pub record PluginInstance (p : Platform) : Type 0 where
  pub name : String
  pub enabled : Bool
  pub fail_mode : String
  pub config : p.Value

pub record RouteConfig (p : Platform) : Type 0 where
  pub name : String
  pub hostnames : List String
  pub path_prefix : String
  pub methods : List String
  pub auth_required : Bool
  pub auth_provider : Option String
  pub required_scopes : Option (List String)
  pub rate_limit : RouteRateLimit p
  pub upstream : UpstreamConfig
  pub plugins : List (PluginInstance p)

pub record HealthCheckConfig : Type 0 where
  pub path : String
  pub interval_ms : ℕ
  pub timeout_ms : ℕ

pub record ServiceConfig : Type 0 where
  pub name : String
  pub endpoints : List String
  pub health_check : HealthCheckConfig

pub record TracingConfig (p : Platform) : Type 0 where
  pub enabled : Bool
  pub otlp_endpoint : String
  pub sample_rate : p.F64

pub record ObservabilityConfig (p : Platform) : Type 0 where
  pub access_log_json : Bool
  pub prometheus_enabled : Bool
  pub tracing : TracingConfig p

pub record PluginLimits : Type 0 where
  pub max_memory_bytes : ℕ
  pub max_instructions : ℕ
  pub chain_timeout_ms : ℕ

pub record PluginsConfig (p : Platform) : Type 0 where
  pub enabled : Bool
  pub directory : String
  pub limits : PluginLimits
  pub global : List (PluginInstance p)

pub record XdsConfig : Type 0 where
  pub enabled : Bool
  pub listen_address : String

pub record ExtProcConfig : Type 0 where
  pub enabled : Bool
  pub listen_address : String

pub record GatewayConfig (p : Platform) : Type 0 where
  pub version : ℕ
  pub gateway : GatewayServer
  pub auth : AuthConfig
  pub rate_limits : RateLimitsConfig p
  pub routes : List (RouteConfig p)
  pub services : List ServiceConfig
  pub observability : ObservabilityConfig p
  pub plugins : PluginsConfig p
  pub xds : XdsConfig
  pub ext_proc : ExtProcConfig
