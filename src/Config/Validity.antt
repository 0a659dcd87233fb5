-- ===== src/Config/Validity.antt =====
-- What a valid configuration is, said without the checks of validation.rs.
use open_api_gateway.Prelude.{
  ℕ, String, true, false, some, List, [], ◌∷◌, map, Mem, All, ◌≡◌, ◌≢◌, ◌≤◌,
}
use text.Mathlib.TextBridge.{IsPrefix}
use open_api_gateway.Prelude.Text.{parse_u16, trim}
use open_api_gateway.Prelude.Text.Colon.{LacksColon, with_colon}
use open_api_gateway.Config.Types.{
  Platform, GatewayConfig, RouteConfig, ServiceConfig, AuthProvider, PluginInstance, PluginsConfig,
}
use open_api_gateway.Config.Validation.Checks.{valid_methods, valid_key_by, valid_plugin_fail_modes}

-- `host:port`, split at the last colon, with a host and a port below 65536.
abbrev pub IsHostPort : String → Type 0
IsHostPort value =
    (host port : String) × (n : ℕ) × (value ≡ with_colon host port)
    × LacksColon port
    × (parse_u16 port ≡ some n)
    × (host ≢ "")

abbrev pub IsUnique : List String → Type 0
IsUnique [] = Unit
IsUnique (x ∷ xs) = All (λ y. x ≢ y) xs × IsUnique xs

pub record IsValidPlugin {p : Platform} (plugin : PluginInstance p) : Type 0 where
  pub named : trim plugin.name ≢ ""
  pub fail_mode : Mem plugin.fail_mode valid_plugin_fail_modes

pub record IsValidProvider (p : Platform) (a : AuthProvider) : Type 0 where
  pub named : a.name ≢ ""
  pub url : p.is_url a.jwks_uri ≡ true
  pub cached : 1 ≤ a.cache_ttl_seconds

pub record IsValidRoute {p : Platform} (services providers : List String) (r : RouteConfig p)
    : Type 0 where
  pub named : r.name ≢ ""
  pub hosted : r.hostnames ≢ []
  pub has_methods : r.methods ≢ []
  pub rooted : IsPrefix "/" r.path_prefix
  pub methods : All (λ m. Mem m valid_methods) r.methods
  pub capacity : 1 ≤ r.rate_limit.bucket_capacity
  pub refill : p.le r.rate_limit.refill_rate_per_sec (p.of_u64 0) ≡ false
  pub key_by : Mem r.rate_limit.key_by valid_key_by
  pub plugins : All IsValidPlugin r.plugins
  pub plugins_unique : IsUnique (map (λ plugin. plugin.name) r.plugins)
  pub service_known : Mem r.upstream.service services
  pub provider_known :
      r.auth_required ≡ true → (name : String) × (r.auth_provider ≡ some name) × Mem name providers
  pub scoped : r.required_scopes ≢ some []

pub record IsValidService (s : ServiceConfig) : Type 0 where
  pub named : s.name ≢ ""
  pub has_endpoints : s.endpoints ≢ []
  pub endpoints : All IsHostPort s.endpoints
  pub rooted : IsPrefix "/" s.health_check.path

pub record IsValidEngine {p : Platform} (plugins : PluginsConfig p) : Type 0 where
  pub directory : trim plugins.directory ≢ ""
  pub memory : 1 ≤ plugins.limits.max_memory_bytes
  pub instructions : 1 ≤ plugins.limits.max_instructions
  pub timeout : 1 ≤ plugins.limits.chain_timeout_ms

pub record IsValid {p : Platform} (cfg : GatewayConfig p) : Type 0 where
  pub version : cfg.version ≡ 1
  pub routes_unique : IsUnique (map (λ r. r.name) cfg.routes)
  pub services_unique : IsUnique (map (λ s. s.name) cfg.services)
  pub providers_unique : IsUnique (map (λ a. a.name) cfg.auth.providers)
  pub listen : IsHostPort cfg.gateway.listen_address
  pub admin : IsHostPort cfg.gateway.admin_address
  pub extauthz : (value : String) → cfg.gateway.extauthz_address ≡ some value → IsHostPort value
  pub xds : cfg.xds.enabled ≡ true → IsHostPort cfg.xds.listen_address
  pub ext_proc : cfg.ext_proc.enabled ≡ true → IsHostPort cfg.ext_proc.listen_address
  pub redis : IsHostPort cfg.rate_limits.redis_address
  pub providers : All (IsValidProvider p) cfg.auth.providers
  pub routes :
      All
        (IsValidRoute (map (λ s. s.name) cfg.services) (map (λ a. a.name) cfg.auth.providers))
        cfg.routes
  pub services : All IsValidService cfg.services
  pub sampled_above : p.lt cfg.observability.tracing.sample_rate (p.of_u64 0) ≡ false
  pub sampled_below : p.lt (p.of_u64 1) cfg.observability.tracing.sample_rate ≡ false
  pub engine : cfg.plugins.enabled ≡ true → IsValidEngine cfg.plugins
  pub plugins : All IsValidPlugin cfg.plugins.global
  pub plugins_unique : IsUnique (map (λ plugin. plugin.name) cfg.plugins.global)
  pub traced :
      cfg.observability.tracing.enabled ≡ true → cfg.observability.tracing.otlp_endpoint ≢ ""
