-- ===== src/Plugins/Sdk.antt =====
-- controlplane/src/plugins/sdk.rs: what a plugin's calls do to the state of a request's chain.
use text.Mathlib.Text.{starts_with}
use open_api_gateway.Prelude.{
  ℕ, String, ◌<>◌, ◌==◌, Bool, false, Option, none, some, List, [], ◌∷◌, any, if◌then◌else◌,
}
use open_api_gateway.Prelude.Result.{Result, ok, err}
use open_api_gateway.Prelude.Maps.{put}
use open_api_gateway.Prelude.Text.{eq_ignore_ascii_case}
use open_api_gateway.Prelude.Text.Lower.{to_ascii_lowercase}
use open_api_gateway.Config.Types.{Platform}
use open_api_gateway.ExtAuthz.Events.{PluginRequest}
use open_api_gateway.Plugins.Lua.{
  Lua, Call, returned, raised, response_set_header, request_set_header, exit, RequestApi,
  PluginBinding, PluginExit,
}

abbrev pub exit_sentinel : String
exit_sentinel = "__gateway_plugin_exit__"

abbrev pub reserved_header_prefixes : List String
reserved_header_prefixes = "x-auth-" ∷ "x-ratelimit-" ∷ "x-envoy-" ∷ []

pub record RuntimeState : Type 0 where
  pub upstream_headers : List (String × String)
  pub response_headers : List (String × String)
  pub short_circuit : Option PluginExit

abbrev pub new_state : RuntimeState
new_state = record { upstream_headers = []; response_headers = []; short_circuit = none }

unfoldable pub is_reserved : String → Bool
is_reserved lower = any (λ prefix. starts_with lower prefix) reserved_header_prefixes

unfoldable pub set_response_header : String → String → RuntimeState → RuntimeState
unfolding put to_ascii_lowercase
set_response_header name value st = record st {
  response_headers = put (to_ascii_lowercase name) value st.response_headers;
}

abbrev pub set_short_circuit : ℕ → Option String → String → RuntimeState → RuntimeState
set_short_circuit status body plugin_name st = record st {
  short_circuit = some record { status = status; body = body; plugin_name = plugin_name };
}

-- `gateway.request.get_header`: the first header of the name, in any case
unfoldable pub get_request_header : List (String × String) → String → Option String
unfolding eq_ignore_ascii_case
get_request_header [] name = none
get_request_header ((key, value) ∷ headers) name =
    if eq_ignore_ascii_case key name then some value else get_request_header headers name

unfoldable pub build_request_api : PluginRequest → RequestApi
unfolding get_request_header
build_request_api request = record {
  get_header = get_request_header request.headers;
  get_method = request.method;
  get_path = request.path;
  get_host = request.host;
}

module _ {p : Platform} (l : Lua p) where
  open l use {Error, State, runtime_error, runtime_message, Table, Json}

  unfoldable pub is_exit_error : Error → Bool
  is_exit_error error = elim (runtime_message error) [
    | none ↦ false
    | some message ↦ message == exit_sentinel
  ]

  -- `gateway.service.request.set_header`: the state after it and what it returns to Lua
  unfoldable pub set_upstream_header :
      String → String → RuntimeState → RuntimeState × Result Error (Unit {0})
  unfolding is_reserved put to_ascii_lowercase
  set_upstream_header name value st =
      let lower = to_ascii_lowercase name in
      if◌then◌else◌ {A = RuntimeState × Result Error (Unit {0})} (is_reserved lower)
        (
          st,
          err (
              runtime_error ("header '" <> (name <> "' is reserved and cannot be set by plugins"))),
        )
        (record st { upstream_headers = put lower value st.upstream_headers }, ok tt)

  -- `gateway.response.exit` always raises, after it has written the short circuit.
  unfoldable pub exit_error : Error
  exit_error = runtime_error exit_sentinel

  -- A run of plugin code named `plugin_name`, its calls served by the functions above.
  unfoldable pub run_call :
      String → Call State Error → RuntimeState → State × RuntimeState × Result Error (Unit {0})
  unfolding set_response_header set_upstream_header exit_error
  run_call plugin_name (returned s) st = (s, st, ok tt)
  run_call plugin_name (raised s e) st = (s, st, err e)
  run_call plugin_name (response_set_header name value next) st =
      run_call plugin_name next (set_response_header name value st)
  run_call plugin_name (request_set_header name value next) st =
      run_call plugin_name (next (set_upstream_header name value st).1)
        (set_upstream_header name value st).0
  run_call plugin_name (exit status body next) st =
      run_call plugin_name (next exit_error) (set_short_circuit status body plugin_name st)

  unfoldable pub install_gateway :
      State → PluginRequest → PluginBinding l → Table → Option ℕ → State × Result Error (Unit {0})
  unfolding build_request_api
  install_gateway s request binding shared_ctx response_status = l.install s record {
    request = build_request_api request;
    shared = shared_ctx;
    response_status = response_status;
    route_name = request.route_name;
    plugin_name = binding.name;
    plugin_version = binding.version;
    plugin_config = binding.config;
  }
