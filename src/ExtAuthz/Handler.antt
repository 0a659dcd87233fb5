-- ===== src/ExtAuthz/Handler.antt =====
-- `check` and `check_inner` of controlplane/src/extauthz/handler.rs
pub mod Safe
pub mod Reporting
pub mod Counted
use open_api_gateway.Prelude.{
  ℕ, ◌/◌, String, ◌==◌, Bool, true, false, not, Option, none, some, List, [], ◌∷◌, ◌++◌, any,
  if◌then◌else◌,
}
use open_api_gateway.Prelude.Text.{decimal, eq_ignore_ascii_case}
use open_api_gateway.Prelude.Result.{Result, ok, err}
use open_api_gateway.Config.Types.{Platform, RouteConfig}
use open_api_gateway.Auth.Types.{Jwt}
use open_api_gateway.RateLimit.Bucket.{build_key}
use open_api_gateway.RateLimit.{
  RateLimiter, RateLimitError, RateDecision, RateLimitMode, as_header_value,
}
use open_api_gateway.RateLimit
use open_api_gateway.ExtAuthz.RouteMatch.{match_route}
use open_api_gateway.ExtAuthz.Headers.{
  Http, HeaderMap, Response, no_body, header_str, get_header, client_ip, insert_text,
  insert_rate_limit_headers, insert_string_headers, overload_response, allow_response,
  deny_response, at_least_one, and_then,
}
use open_api_gateway.ExtAuthz.Events.{Event, Env, log, record_request}
use open_api_gateway.ExtAuthz.AuthStep.{AuthDeny, AuthResult, apply_auth}
use open_api_gateway.ExtAuthz.LimitStep.{
  text_or, Outcome, mode_event, early_deny, too_many_requests, allowed, after_limit, bucket_key,
  limit_step,
}
use open_api_gateway.ExtAuthz.PluginStep.{
  PluginEngine, Meta, run_plugin_log, finish_events, execute_access_plugins,
}

module _ {p : Platform} {h : Http} where
  -- Events that came before.
  abbrev pub after_events : List Event → Outcome p h → Outcome p h
  after_events events outcome = record {
    limiter = outcome.limiter;
    events = events ++ outcome.events;
    response = outcome.response;
  }

unfoldable pub allows_method : {p : Platform} → RouteConfig p → String → Bool
allows_method route method = any (λ m. eq_ignore_ascii_case m method) route.methods

module _ (h : Http) where
  unfoldable pub meta_of : HeaderMap h → String → String → String → Meta
  unfolding header_str client_ip
  meta_of headers method path request_id = record {
    host = text_or "*" (header_str h headers "host");
    method = method;
    path = path;
    request_id = request_id;
    remote_addr = client_ip h headers false;
  }

module _ {p : Platform} {j : Jwt} (h : Http) where
  -- What follows the authentication.
  unfoldable pub after_auth :
      Env p j
      → RateLimiter p
      → Meta
      → RouteConfig p
      → HeaderMap h
      → List (String × String)
      → Result AuthDeny (HeaderMap h × Option String)
      → Outcome p h
  unfolding limit_step early_deny run_plugin_log
  after_auth env limiter meta route headers upstream_headers (err deny) =
      early_deny h limiter meta route deny.status deny.error_code
        (run_plugin_log env.execute_access deny.status)
  after_auth env limiter meta route headers upstream_headers (ok (granted_headers, auth_subject)) =
      limit_step h env limiter meta route headers auth_subject upstream_headers granted_headers

  unfoldable pub auth_step :
      Env p j
      → RateLimiter p
      → Meta
      → RouteConfig p
      → HeaderMap h
      → List (String × String)
      → HeaderMap h
      → Outcome p h
  unfolding apply_auth after_auth
  auth_step env limiter meta route headers upstream_headers response_headers =
      let (events, result) = apply_auth h env route headers response_headers in
      after_events events (after_auth env limiter meta route headers upstream_headers result)

  -- What follows the plugins.
  unfoldable pub after_plugins :
      Env p j
      → RateLimiter p
      → Meta
      → RouteConfig p
      → HeaderMap h
      → Result (Response h) (List (String × String) × HeaderMap h)
      → Outcome p h
  unfolding auth_step
  after_plugins env limiter meta route headers (err response) = record {
    limiter = limiter;
    events = [];
    response = response;
  }
  after_plugins env limiter meta route headers (ok (upstream_headers, response_headers)) =
      auth_step env limiter meta route headers upstream_headers response_headers

  unfoldable pub plugin_step :
      Env p j → RateLimiter p → Meta → RouteConfig p → HeaderMap h → Outcome p h
  unfolding execute_access_plugins after_plugins
  plugin_step env limiter meta route headers =
      let (events, result) = execute_access_plugins h env.execute_access route meta headers [] in
      after_events events (after_plugins env limiter meta route headers result)

  unfoldable pub route_step :
      Env p j → RateLimiter p → Meta → HeaderMap h → Option (RouteConfig p) → Outcome p h
  unfolding allows_method early_deny plugin_step allow_response
  route_step env limiter meta headers none = record {
    limiter = limiter;
    events =
        log record {
          request_id = meta.request_id;
          remote_addr = meta.remote_addr;
          host = meta.host;
          method = meta.method;
          path = meta.path;
          route = "";
          status = 200;
          auth_subject = none;
          rate_limit_mode = "none";
          upstream_service = "";
        }
        ∷ record_request "" meta.method 200
        ∷ [];
    response = allow_response h [] meta.request_id;
  }
  route_step env limiter meta headers (some route) =
      if not (allows_method route meta.method)
      then early_deny h limiter meta route 405 "method_not_allowed" []
      else plugin_step env limiter meta route headers

  unfoldable pub check_inner :
      Env p j → RateLimiter p → HeaderMap h → String → String → String → Outcome p h
  unfolding meta_of match_route route_step
  check_inner env limiter headers method path request_id =
      let meta = meta_of h headers method path request_id in
      route_step env limiter meta headers (match_route env.config.routes meta.host path)

  -- `check`, given whether a permit was to be had
  unfoldable pub check :
      Bool → Env p j → RateLimiter p → HeaderMap h → String → String → String → Outcome p h
  unfolding check_inner overload_response
  check false env limiter headers method path request_id = record {
    limiter = limiter;
    events = Event.record_overload ∷ [];
    response = overload_response h request_id;
  }
  check true env limiter headers method path request_id =
      let outcome = check_inner env limiter headers method path request_id in
      record {
        limiter = outcome.limiter;
        events = Event.inc_inflight ∷ outcome.events ++ Event.dec_inflight ∷ [];
        response = outcome.response;
      }
