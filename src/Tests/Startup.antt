-- ===== src/Tests/Startup.antt =====
-- Startup, run on the sample configuration.
use open_api_gateway.Prelude.{String, ◌==◌, true, false, none, some, [], ◌≡◌, refl, if◌then◌else◌}
use open_api_gateway.Prelude.Result.{ok, err, IsOk, ok_of}
use open_api_gateway.Auth.Cache.{parse_jwks_keys}
use open_api_gateway.Config.Types.{GatewayConfig}
use open_api_gateway.RateLimit.{Connection}
use open_api_gateway.Startup.{Outside, Started, config_path_of, run}
use open_api_gateway.Startup.Ready.{IsReady, run-IsReady}
use open_api_gateway.Startup.Starts.{Works, run-IsOk}
use open_api_gateway.Plugins.Registry.{build_runtime}
use open_api_gateway.Tests.Sample.{platform, config, jwt}
use open_api_gateway.Tests.Plugins.{lua}
use open_api_gateway.Tests.Control.{prost, files, bytes, is_valid}

abbrev outside : Outside platform bytes
outside = record {
  gateway_config = none;
  envoy_config_path = some "envoy.yaml";
  read = λ path. if path == "configs/gateway.yaml" then ok "sample" else err "not found";
  init_tracing = λ tracing. ok tt;
  write = λ path text. ok tt;
  fetch = λ provider. record { at = 100; reply = ok record { keys = [] } };
  connection = Connection.connection_failed "refused";
  redis_answers = false;
  redis_reconnects = true;
  register_metrics = ok tt;
  now = 7;
  bind = λ addr. ok tt;
  parse_addr = λ addr. err "no socket address";
}

works : Works jwt lua bytes outside config
unfolding build_runtime parse_jwks_keys
works = record {
  tracing = tt;
  yaml = λ value h. (cc);
  writes = λ path text. tt;
  answers = (tt, tt);
  metrics = tt;
  plugins = tt;
  admin = tt;
  extauthz = λ addr h. tt;
  xds = λ h. absurd (cc);
  ext_proc = λ h. absurd (cc);
}

starts : IsOk (run jwt lua prost bytes files outside)
unfolding config_path_of
starts =
    run-IsOk jwt lua prost bytes files outside "sample" config (λ url message. tt) refl refl
      is_valid works

abbrev started :
    (s : Started jwt lua prost bytes files) × (run jwt lua prost bytes files outside ≡ ok s)
started = ok_of (run jwt lua prost bytes files outside) starts

run-IsReady_example :
    (raw : String) × (c : GatewayConfig platform) × IsReady jwt lua prost bytes files outside
      started.0 raw c
run-IsReady_example = run-IsReady jwt lua prost bytes files outside started.0 started.1
