-- ===== src/ExtAuthz/PluginStep.antt =====
-- `execute_access_plugins` and `run_plugin_log` of controlplane/src/extauthz/plugin_step.rs
use open_api_gateway.Prelude.{ℕ, String, Option, none, some, List, [], ◌∷◌, if◌then◌else◌}
use open_api_gateway.Prelude.Result.{Result, ok, err}
use open_api_gateway.Config.Types.{Platform, RouteConfig}
use open_api_gateway.ExtAuthz.Headers.{
  Http, HeaderMap, Response, Body, no_body, json_error, json_plugin_error, text_body, insert_text,
  insert_string_headers, when_some,
}
use open_api_gateway.ExtAuthz.Events.{
  Event, log, record_request, AccessLogEntry, PluginRequest, PluginAccessResult, continue,
  short_circuit, error, as_str,
}

abbrev pub PluginEngine : Type 0
PluginEngine = Option (PluginRequest → Result String PluginAccessResult)

-- What is known of a request before the checks.
pub record Meta : Type 0 where
  pub host : String
  pub method : String
  pub path : String
  pub request_id : String
  pub remote_addr : String

unfoldable pub run_plugin_log : PluginEngine → ℕ → List Event
run_plugin_log none status = []
run_plugin_log (some engine) status = Event.execute_log status ∷ []

abbrev pub chain_events : String → ℕ → List Event → List Event
chain_events route_name chain_duration_us events =
    Event.record_plugin_chain_duration route_name chain_duration_us
    ∷ Event.record_plugin_duration "__chain__" route_name "access" chain_duration_us
    ∷ events

module _ {p : Platform} where
  unfoldable pub log_entry : Meta → RouteConfig p → ℕ → Option String → String → AccessLogEntry
  log_entry meta route status auth_subject mode = record {
    request_id = meta.request_id;
    remote_addr = meta.remote_addr;
    host = meta.host;
    method = meta.method;
    path = meta.path;
    route = route.name;
    status = status;
    auth_subject = auth_subject;
    rate_limit_mode = mode;
    upstream_service = route.upstream.service;
  }

  -- The access log entry and the request's metric, as every answer to a routed request has them.
  unfoldable pub finish_events :
      Meta → RouteConfig p → ℕ → Option String → String → List Event → List Event
  unfolding log_entry
  finish_events meta route status auth_subject mode events =
      log (log_entry meta route status auth_subject mode)
      ∷ record_request route.name meta.method status
      ∷ events

module _ (h : Http) where
  unfoldable pub readable_headers : HeaderMap h → List (String × String)
  readable_headers [] = []
  readable_headers ((name, value) ∷ rest) =
      when_some (h.to_str value) (λ v hs. (name, v) ∷ hs) (readable_headers rest)

  abbrev pub body_of : Option String → Body
  body_of none = no_body
  body_of (some body) = text_body body

module _ {p : Platform} (h : Http) where
  unfoldable pub plugin_request : RouteConfig p → Meta → HeaderMap h → PluginRequest
  unfolding readable_headers
  plugin_request route meta headers = record {
    route_name = route.name;
    host = meta.host;
    method = meta.method;
    path = meta.path;
    headers = readable_headers h headers;
  }

  unfoldable pub plugin_outcome :
      PluginEngine
      → RouteConfig p
      → Meta
      → HeaderMap h
      → Result String PluginAccessResult
      → List Event × Result (Response h) (List (String × String) × HeaderMap h)
  unfolding insert_string_headers insert_text finish_events run_plugin_log as_str
  plugin_outcome engine route meta response_headers
        (ok (continue upstream_headers plugin_headers us)) =
      (
        chain_events route.name us [],
        ok (upstream_headers, insert_string_headers h plugin_headers response_headers),
      )
  plugin_outcome engine route meta response_headers
        (ok (short_circuit name status body plugin_headers us)) =
      (
        chain_events route.name us (
            Event.record_plugin_short_circuit name route.name status
            ∷ finish_events meta route status none "plugin-short-circuit"
                (run_plugin_log engine status)),
        err record {
          status = if h.is_status status then status else 200;
          headers =
              insert_text h "x-request-id" meta.request_id
                (insert_string_headers h plugin_headers []);
          body = body_of h body;
        },
      )
  plugin_outcome engine route meta response_headers (ok (error name message error_type us)) = (
    chain_events route.name us (
        Event.record_plugin_error name route.name (as_str error_type)
        ∷ finish_events meta route 500 none "plugin-error" (run_plugin_log engine 500)),
    err record {
      status = 500;
      headers =
          insert_text h "x-request-id" meta.request_id (insert_text h "x-plugin-error" name []);
      body = json_plugin_error name message;
    },
  )
  plugin_outcome engine route meta response_headers (err _) = (
    Event.record_plugin_error "engine" route.name "runtime" ∷ [],
    err record { status = 200; headers = []; body = json_error "plugin_engine_error" },
  )

  unfoldable pub execute_access_plugins :
      PluginEngine
      → RouteConfig p
      → Meta
      → HeaderMap h
      → HeaderMap h
      → List Event × Result (Response h) (List (String × String) × HeaderMap h)
  unfolding plugin_request plugin_outcome
  execute_access_plugins none route meta headers response_headers = ([], ok ([], response_headers))
  execute_access_plugins (some engine) route meta headers response_headers =
      plugin_outcome (some engine) route meta response_headers
        (engine (plugin_request route meta headers))
