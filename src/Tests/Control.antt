-- ===== src/Tests/Control.antt =====
-- The control plane, the loader, the reload and the external processor, run on a sample.
use mathlib.Core.List.{Perm}
use open_api_gateway.Prelude.{
  ℕ, String, ◌==◌, true, false, none, some, List, [], ◌∷◌, map, any, eqb, flat_map, ◌≡◌, ◌↔◌, ◌<◌,
  refl, arith, if◌then◌else◌,
}
use open_api_gateway.Prelude.Result.{ok, err, IsOk, ok_of}
use open_api_gateway.Prelude.Maps.{lookup}
use open_api_gateway.Prelude.Text.{rsplit_colon, parse_u16}
use open_api_gateway.Config.Loader.{Files, load_config_from_str, load_config_from_str-IsValid}
use open_api_gateway.Config.Validation.{validate}
use open_api_gateway.Config.Validation.Exact.{validate-IsValid}
use open_api_gateway.Config.Validity.{IsValid}
use open_api_gateway.Xds.Resources.{build_virtual_hosts}
use open_api_gateway.Xds.Resources.Hosts.{served, tagged_route, build_virtual_hosts-served}
use open_api_gateway.Xds.Builders.{Prost, build}
use open_api_gateway.Xds.Builders.Valid.{build-IsOk}
use open_api_gateway.Xds.Stream.{DiscoveryRequest}
use open_api_gateway.Xds.Server.{Plane, Stream, broadcast, register, on_close, node_of}
use open_api_gateway.Xds.Server.Close.{reconnect_lost}
use open_api_gateway.Xds.Server.Rebuild.{deliveries, dropped, broadcast_lem}
use open_api_gateway.Xds.Server.Running.{Running, resting, Reach, Step, IsSound}
use open_api_gateway.Xds.Server.Versions.{Reach-versions, overtaken}
use open_api_gateway.Xds.Builders.Sent.{IsSent, build-IsSent}
use open_api_gateway.Xds.Snapshot.{ordered_responses}
use open_api_gateway.Admin.{Bytes, AppState, success}
use open_api_gateway.Admin.Reload.{Reading, config_reload}
use open_api_gateway.Admin.Reload.Safe.{reload_all, reload_all-IsValid}
use open_api_gateway.Admin.Reload.Atomic.{IsFramed, IsUntouched, config_reload-Left}
use open_api_gateway.ExtProc.{request_headers, process, immediate_response}
use open_api_gateway.ExtProc.Laws.{Fits, process-Fits}
use open_api_gateway.Tests.Sample.{platform, config, jwt, cache, limiter}
use open_api_gateway.Tests.Plugins.{lua, engine}

-- A message is encoded as its type URL.
abbrev pub prost : Prost
prost = record { Any = String; encode_as = λ url message. ok url }

abbrev pub files : Files platform
files = record {
  from_str = λ yaml. if yaml == "sample" then ok config else err "no mapping";
  read_to_string = λ path. ok "sample";
}

abbrev pub bytes : Bytes
bytes = record {
  Raw = String;
  sha256_hex = λ raw. raw;
  from_utf8_lossy = λ raw. raw;
  max_permits = 1000;
}

abbrev plane : Plane prost
plane = record {
  snapshot = record { version = 1; nonce = "snapshot-1"; resources = [] };
  versions = 1;
  connections = ("envoy", 7) ∷ ("edge", 8) ∷ [];
  statuses = [];
  metrics = [];
}

abbrev state : AppState jwt lua prost
state = record {
  config_state = record {
    config = config;
    sha256 = "first";
    last_reload_unix = 5;
    last_reload_result = success;
    last_reload_error = none;
  };
  config_path = "gateway.yaml";
  envoy_config_path = some "envoy.yaml";
  jwks_registry = cache ∷ [];
  rate_limiter = limiter true;
  metrics = [];
  concurrency_limit = 1000;
  tracing_enabled = false;
  plugin_engine = some engine;
  xds = some plane;
}

abbrev reading : String → Reading bytes
reading raw = record { now = 9; contents = ok raw; takes = λ id. 4 }

pub is_valid : IsValid config
unfolding validate flat_map rsplit_colon parse_u16
is_valid = (validate-IsValid config).0 refl

load_config_from_str-IsValid_example :
    (load_config_from_str files "sample" ≡ ok config)
    ↔ ((files.from_str "sample" ≡ ok config) × IsValid config)
load_config_from_str-IsValid_example = load_config_from_str-IsValid files "sample" config

build_virtual_hosts-served_example :
    Perm (served (build_virtual_hosts config.routes)) (map tagged_route config.routes)
build_virtual_hosts-served_example = build_virtual_hosts-served config.routes

build_works : IsOk (build prost config 2)
build_works = build-IsOk prost (λ url message. tt) config 2 is_valid

build-IsOk_example : IsOk (build prost config 2)
build-IsOk_example = build-IsOk prost (λ url message. tt) config 2 is_valid

abbrev hello : DiscoveryRequest
hello = record {
  node_id = some "envoy";
  type_url = "";
  version_info = "";
  response_nonce = "";
  error_detail = none;
}

abbrev stream : ℕ → Stream
stream id = record { id = id; node_id = "" }

-- The stream of `envoy` closes after one message.
abbrev takes : ℕ → ℕ
takes id = if eqb id 7 then 1 else 4

abbrev pushed : List String
pushed = "clusters" ∷ "endpoints" ∷ []

broadcast_lem_example :
    let (after, sent) = broadcast takes pushed plane.connections in
    (sent ≡ deliveries takes pushed plane.connections)
    × ((node : String)
        → lookup node after ≡ (
            if any (λ n. n == node) (dropped takes pushed plane.connections)
            then none
            else lookup node plane.connections))
broadcast_lem_example = broadcast_lem takes pushed plane.connections

reconnect_lost_example :
    let one = register prost (stream 1) hello plane in
    let two = register prost (stream 2) hello one.0 in
    (lookup (node_of hello) two.0.connections ≡ some 2)
    × (lookup (node_of hello) (on_close prost one.1 two.0).connections ≡ none)
reconnect_lost_example = reconnect_lost prost (stream 1) (stream 2) hello hello plane refl

abbrev overlapping :
    (t u : Running prost) × Reach prost (resting prost plane) t
    × Step prost t u
    × (u.plane.snapshot.version < t.plane.snapshot.version)
overlapping =
    overtaken prost config config plane (λ url message. tt) is_valid is_valid (omega arith)

-- Two rebuilds have begun, and the second is installed before the first.
Reach-versions_example : IsSound prost overlapping.0
Reach-versions_example = Reach-versions prost {plane = plane} (omega arith) overlapping.2

overtaken_example :
    (t u : Running prost) × Reach prost (resting prost plane) t
    × Step prost t u
    × (u.plane.snapshot.version < t.plane.snapshot.version)
overtaken_example =
    overtaken prost config config plane (λ url message. tt) is_valid is_valid (omega arith)

build-IsSent_example :
    IsSent prost config 2 (ordered_responses String (ok_of (build prost config 2) build_works).0)
build-IsSent_example =
    build-IsSent prost config 2 (ok_of (build prost config 2) build_works).0
      (ok_of (build prost config 2) build_works).1

reload_all-IsValid_example :
    IsValid
      (reload_all jwt lua prost bytes files
        (reading "broken" ∷ reading "sample" ∷ [])
        state).config_state.config
reload_all-IsValid_example =
    reload_all-IsValid jwt lua prost bytes files (reading "broken" ∷ reading "sample" ∷ []) state
      is_valid

config_reload-Left_example :
    let r = config_reload jwt lua prost bytes files (reading "broken") state in
    IsFramed jwt lua prost bytes files state r.state
    × IsUntouched jwt lua prost bytes files state r.state r.response
config_reload-Left_example =
    config_reload-Left jwt lua prost bytes files state (reading "broken") (λ url message. tt)

process-Fits_example :
    Fits
      (request_headers (("X-Ext-Proc-Immediate-Status", "429") ∷ []))
      (process (request_headers (("X-Ext-Proc-Immediate-Status", "429") ∷ [])))
process-Fits_example = process-Fits (request_headers (("X-Ext-Proc-Immediate-Status", "429") ∷ []))

-- A header in any case asks for an immediate answer, and a status that is no number is 403.
blocked :
    process (request_headers (("X-Ext-Proc-Immediate-Status", "teapot") ∷ []))
    ≡ immediate_response 403 "blocked by ext_proc"
unfolding process
blocked = refl
