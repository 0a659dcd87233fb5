-- ===== src/Startup/Starts.antt =====
-- That startup comes to serve.
use open_api_gateway.Prelude.{String, true, none, some, [], ◌≡◌, ◌≢◌, All}
use open_api_gateway.Prelude.Result.{ok, IsOk, bind_IsOk, bind_IsOk_given}
use open_api_gateway.Config.Types.{Platform, GatewayConfig}
use open_api_gateway.Config.Validity.{IsValid}
use open_api_gateway.Config.Loader.{Files, load_config_from_str-IsValid}
use open_api_gateway.Auth.Types.{Jwt}
use open_api_gateway.Auth.Validator.{map_err}
use open_api_gateway.Auth.Registry.{registry_from_config}
use open_api_gateway.Plugins.Lua.{Lua}
use open_api_gateway.Plugins.Registry.{build_runtime}
use open_api_gateway.Plugins.Engine.{from_config}
use open_api_gateway.Xds.Builders.{Prost, Message}
use open_api_gateway.Admin.{AppState, Bytes, build_state}
use open_api_gateway.Startup.Ready.{is_some, init_xds-enabled}
use open_api_gateway.Startup.Steps.{
  map_err-IsOk, Answers, insert_all-IsOk, init_xds-IsOk, write_envoy_config-IsOk,
  serve_extauthz-IsOk, serve_ext_proc-IsOk, serve_xds-IsOk,
}
use open_api_gateway.Startup.{
  Outside, config_path_of, init_jwks, init_metrics, init_plugins, init_rate_limiter,
  write_envoy_config, init_xds, bind_server, serve_extauthz, serve_xds, serve_ext_proc, serve,
  run_with, run,
}

-- What startup needs from outside for the configuration.
pub record Works {p : Platform} (j : Jwt) (l : Lua p) (b : Bytes) (o : Outside p b)
    (config : GatewayConfig p) : Type 0 where
  pub tracing : IsOk (o.init_tracing config.observability.tracing)
  pub yaml : (value : p.Value) → p.to_yaml value ≢ none
  pub writes : (path text : String) → IsOk (o.write path text)
  pub answers : All (λ provider. Answers j (o.fetch provider)) config.auth.providers
  pub metrics : IsOk o.register_metrics
  pub plugins : IsOk (build_runtime l config 1)
  pub admin : IsOk (o.bind config.gateway.admin_address)
  pub extauthz : (addr : String) → config.gateway.extauthz_address ≡ some addr → IsOk (o.bind addr)
  pub xds : config.xds.enabled ≡ true → IsOk (o.parse_addr config.xds.listen_address)
  pub ext_proc : config.ext_proc.enabled ≡ true → IsOk (o.parse_addr config.ext_proc.listen_address)

module _ {p : Platform} (j : Jwt) (l : Lua p) (q : Prost) (b : Bytes) (files : Files p) where
  serve-IsOk :
      (o : Outside p b) (state : AppState j l q)
      → is_some state.xds ≡ state.config_state.config.xds.enabled
      → Works j l b o state.config_state.config
      → IsOk (serve j l q b files o state)
  unfolding serve bind_server
  serve-IsOk o state same works =
      let config = state.config_state.config in
      bind_IsOk (bind_server o "admin API" _ config.gateway.admin_address) _
        (bind_IsOk (map_err _ (o.bind config.gateway.admin_address)) _
          (map_err-IsOk _ (o.bind config.gateway.admin_address) works.admin) (λ _. tt))
        λ first.
          bind_IsOk (serve_extauthz o config.gateway.extauthz_address) _
            (serve_extauthz-IsOk o config.gateway.extauthz_address works.extauthz)
            λ second.
              bind_IsOk (serve_xds o state.xds config.xds.listen_address) _
                (serve_xds-IsOk o state.xds config.xds.enabled config.xds.listen_address same
                  works.xds)
                λ third.
                  bind_IsOk
                    (serve_ext_proc o config.ext_proc.enabled config.ext_proc.listen_address) _
                    (serve_ext_proc-IsOk o config.ext_proc.enabled config.ext_proc.listen_address
                      works.ext_proc)
                    (λ fourth. tt)

  run_with-IsOk :
      (o : Outside p b) (raw : b.Raw) (config : GatewayConfig p)
      → ((url : String) (message : Message q.Any) → IsOk (q.encode_as url message))
      → IsValid config
      → Works j l b o config
      → IsOk (run_with j l q b files o raw config)
  unfolding run_with build_state init_jwks init_metrics init_plugins registry_from_config
      from_config
  run_with-IsOk o raw config encodes valid works =
      bind_IsOk (map_err _ (o.init_tracing config.observability.tracing)) _
        (map_err-IsOk _ (o.init_tracing config.observability.tracing) works.tracing)
        λ _.
          bind_IsOk (write_envoy_config o config o.envoy_config_path) _
            (write_envoy_config-IsOk o config o.envoy_config_path valid works.yaml works.writes)
            λ written.
              bind_IsOk (init_jwks o j config.auth) _
                (map_err-IsOk _ (registry_from_config j o.fetch config.auth)
                  (insert_all-IsOk o.fetch config.auth.providers [] works.answers))
                λ jwks.
                  bind_IsOk (init_metrics o) _ (map_err-IsOk _ o.register_metrics works.metrics)
                    λ _.
                      bind_IsOk (init_plugins l config) _
                        (bind_IsOk (map_err _ (from_config l config)) _
                          (map_err-IsOk _ (from_config l config)
                            (bind_IsOk (build_runtime l config 1) _ works.plugins (λ _. tt)))
                          (λ _. tt))
                        λ engine.
                          bind_IsOk_given (init_xds q config) _
                            (init_xds-IsOk q config encodes valid)
                            λ xds made.
                              bind_IsOk
                                (serve j l q b files o (
                                  build_state j l q b config raw (config_path_of o.gateway_config)
                                    o.envoy_config_path jwks
                                    (init_rate_limiter o config.rate_limits) engine xds o.now))
                                _
                                (serve-IsOk o
                                  (build_state j l q b config raw (config_path_of o.gateway_config)
                                    o.envoy_config_path jwks
                                    (init_rate_limiter o config.rate_limits) engine xds o.now)
                                  (init_xds-enabled q config xds made) works)
                                (λ servers. tt)

  pub run-IsOk :
      (o : Outside p b) (raw : b.Raw) (config : GatewayConfig p)
      → ((url : String) (message : Message q.Any) → IsOk (q.encode_as url message))
      → o.read (config_path_of o.gateway_config) ≡ ok raw
      → files.from_str (b.from_utf8_lossy raw) ≡ ok config
      → IsValid config
      → Works j l b o config
      → IsOk (run j l q b files o)
  unfolding run
  run-IsOk o raw config encodes read parsed valid works =
      let loaded =
        (load_config_from_str-IsValid files (b.from_utf8_lossy raw) config).1 (parsed, valid) in
      rw (run, read, loaded) (run_with-IsOk o raw config encodes valid works)
