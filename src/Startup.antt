-- ===== src/Startup.antt =====
-- controlplane/src/startup.rs: from the environment to the servers that are up. Each step either gives
-- its result or ends the process; a file that was written before the process ends is not recorded.
pub mod Ready
pub mod Steps
pub mod Starts
use open_api_gateway.Prelude.{
  ℕ, String, Bool, true, false, Option, none, some, List, [], ◌∷◌, ◌++◌, if◌then◌else◌,
}
use open_api_gateway.Prelude.Result.{Result, ok, err, ◌>>=◌}
use open_api_gateway.Config.Types.{
  Platform, GatewayConfig, AuthProvider, AuthConfig, TracingConfig, RateLimitsConfig,
}
use open_api_gateway.Config.Errors.{ConfigErrors}
use open_api_gateway.Config.Loader.{Files, load_config_from_str}
use open_api_gateway.Envoy as Envoy
use open_api_gateway.Envoy.Endpoint.{EnvoyGenError}
use open_api_gateway.Auth.Error.{AuthError}
use open_api_gateway.Auth.Types.{Jwt}
use open_api_gateway.Auth.Validator.{map_err}
use open_api_gateway.Auth.Cache.{JwksCache}
use open_api_gateway.Auth.Registry.{Fetched, registry_from_config}
use open_api_gateway.RateLimit.{RateLimiter, Connection, limiter_from_config, ping}
use open_api_gateway.Plugins.Lua.{Lua, PluginEngine, PluginError}
use open_api_gateway.Plugins.Engine.{from_config}
use open_api_gateway.Xds.Resources.{ResourceError}
use open_api_gateway.Xds.Builders.{Prost}
use open_api_gateway.Xds.Server.{XdsControlPlane, new_plane}
use open_api_gateway.Admin.{AppState, Bytes, build_state}

-- Why the process has ended: the calls of `fatal_stderr` and `fatal_log`, and a panic.
pub data Fatal : Type 0 where
  unreadable : (config_path error : String) → Fatal
  invalid_config : ConfigErrors → Fatal
  no_tracing : String → Fatal
  no_envoy_config : EnvoyGenError → Fatal
  unwritable : (envoy_path error : String) → Fatal
  no_keys : AuthError → Fatal
  no_metrics : String → Fatal
  no_plugins : PluginError → Fatal
  no_xds : ResourceError → Fatal
  unbound : (server error : String) → Fatal
  invalid_address : (label error : String) → Fatal
  panic : Fatal

-- A server that was spawned, with its address.
pub data Server : Type 0 where
  admin : String → Server
  extauthz : String → Server
  ads : String → Server
  ext_proc : String → Server

-- What the process finds: its environment, files, addresses, and what it is answered.
pub record Outside (p : Platform) (b : Bytes) : Type 0 where
  pub gateway_config : Option String
  pub envoy_config_path : Option String
  pub read : String → Result String b.Raw
  pub init_tracing : TracingConfig p → Result String (Unit {0})
  pub write : (path text : String) → Result String (Unit {0})
  pub fetch : AuthProvider → Fetched
  pub connection : Connection
  pub redis_answers : Bool
  pub redis_reconnects : Bool
  pub register_metrics : Result String (Unit {0})
  pub now : ℕ
  pub bind : String → Result String (Unit {0})
  pub parse_addr : String → Result String (Unit {0})

unfoldable pub config_path_of : Option String → String
config_path_of none = "configs/gateway.yaml"
config_path_of (some path) = path

module _ {p : Platform} {b : Bytes} (o : Outside p b) where
  unfoldable pub write_envoy_config :
      GatewayConfig p → Option String → Result Fatal (Option (String × String))
  unfolding Envoy.generate_envoy_config
  write_envoy_config config none = ok none
  write_envoy_config config (some path) = elim (Envoy.generate_envoy_config p config) [
    | Envoy.generated yaml ↦
        map_err (unwritable path) (o.write path yaml) >>= λ _. ok (some (path, yaml))
    | Envoy.failed e ↦ err (no_envoy_config e)
    | Envoy.panicked ↦ err panic
  ]

  unfoldable pub init_jwks : (j : Jwt) → AuthConfig → Result Fatal (List (JwksCache j))
  unfolding registry_from_config
  init_jwks j auth = map_err no_keys (registry_from_config j o.fetch auth)

  unfoldable pub init_rate_limiter : RateLimitsConfig p → RateLimiter p
  unfolding limiter_from_config ping
  init_rate_limiter config =
      (ping p o.redis_answers o.redis_reconnects (limiter_from_config p o.connection config)).0

  unfoldable pub init_metrics : Result Fatal (Unit {0})
  init_metrics = map_err no_metrics o.register_metrics

  unfoldable pub bind_server : (label : String) → Server → String → Result Fatal (List Server)
  bind_server label server addr = map_err (unbound label) (o.bind addr) >>= λ _. ok (server ∷ [])

  -- with the parse of a `std::net::SocketAddr`
  unfoldable pub parse_socket_addr : (value label : String) → Result Fatal (Unit {0})
  parse_socket_addr value label = map_err (invalid_address label) (o.parse_addr value)

  unfoldable pub serve_extauthz : Option String → Result Fatal (List Server)
  unfolding bind_server
  serve_extauthz none = ok []
  serve_extauthz (some addr) = bind_server "ext_authz service" (extauthz addr) addr

  unfoldable pub serve_xds {ℓ} : {A : Type ℓ} → Option A → String → Result Fatal (List Server)
  unfolding parse_socket_addr
  serve_xds none addr = ok []
  serve_xds (some plane) addr = parse_socket_addr addr "xDS" >>= λ _. ok (ads addr ∷ [])

  unfoldable pub serve_ext_proc : Bool → String → Result Fatal (List Server)
  unfolding parse_socket_addr
  serve_ext_proc false addr = ok []
  serve_ext_proc true addr = parse_socket_addr addr "ext_proc" >>= λ _. ok (ext_proc addr ∷ [])

module _ {p : Platform} where
  unfoldable pub init_plugins :
      (l : Lua p) → GatewayConfig p → Result Fatal (Option (PluginEngine l))
  unfolding from_config
  init_plugins l config = map_err no_plugins (from_config l config) >>= λ engine. ok (some engine)

  unfoldable pub init_xds :
      (q : Prost) → GatewayConfig p → Result Fatal (Option (XdsControlPlane q.Any))
  unfolding new_plane
  init_xds q config =
      if config.xds.enabled
      then (map_err no_xds (new_plane q config) >>= λ plane. ok (some plane))
      else ok none

module _ {p : Platform} (j : Jwt) (l : Lua p) (q : Prost) (b : Bytes) (files : Files p) where
  pub record Started : Type 0 where
    pub state : AppState j l q
    pub written : Option (String × String)
    pub servers : List Server

  -- `serve`, up to the wait for the first server that ends
  unfoldable pub serve : Outside p b → AppState j l q → Result Fatal (List Server)
  unfolding bind_server serve_extauthz serve_xds serve_ext_proc
  serve o state = do
    let config = state.config_state.config
    first ←
        bind_server o "admin API" (admin config.gateway.admin_address) config.gateway.admin_address
    second ← serve_extauthz o config.gateway.extauthz_address
    third ← serve_xds o state.xds config.xds.listen_address
    fourth ← serve_ext_proc o config.ext_proc.enabled config.ext_proc.listen_address
    ok (first ++ second ++ third ++ fourth)

  -- `run`, from where the configuration is loaded
  unfoldable pub run_with : Outside p b → b.Raw → GatewayConfig p → Result Fatal Started
  unfolding write_envoy_config init_jwks init_rate_limiter init_metrics init_plugins init_xds serve
      build_state
  run_with o raw config = do
    _ ← map_err no_tracing (o.init_tracing config.observability.tracing)
    written ← write_envoy_config o config o.envoy_config_path
    jwks ← init_jwks o j config.auth
    _ ← init_metrics o
    engine ← init_plugins l config
    xds ← init_xds q config
    let state =
        build_state j l q b config raw (config_path_of o.gateway_config) o.envoy_config_path jwks
          (init_rate_limiter o config.rate_limits) engine xds o.now
    servers ← serve o state
    ok record { state = state; written = written; servers = servers }

  unfoldable pub run : Outside p b → Result Fatal Started
  unfolding load_config_from_str config_path_of run_with
  run o = do
    let path = config_path_of o.gateway_config
    raw ← map_err (unreadable path) (o.read path)
    config ← map_err invalid_config (load_config_from_str files (b.from_utf8_lossy raw))
    run_with o raw config
