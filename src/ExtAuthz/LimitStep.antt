-- ===== src/ExtAuthz/LimitStep.antt =====
-- The rate limiting of `check_inner` in controlplane/src/extauthz/handler.rs, and `early_deny`.
use open_api_gateway.Prelude.{
  ℕ, ◌/◌, String, ◌==◌, not, Option, none, some, List, [], ◌∷◌, ◌++◌, if◌then◌else◌,
}
use open_api_gateway.Prelude.Text.{decimal}
use open_api_gateway.Prelude.Result.{Result, ok, err}
use open_api_gateway.Config.Types.{Platform, RouteConfig}
use open_api_gateway.Auth.Types.{Jwt}
use open_api_gateway.RateLimit.Bucket.{build_key}
use open_api_gateway.RateLimit.{
  RateLimiter, RateLimitError, RateDecision, RateLimitMode, as_header_value,
}
use open_api_gateway.RateLimit
use open_api_gateway.ExtAuthz.Headers.{
  Http, HeaderMap, Response, no_body, get_header, client_ip, insert_text, insert_rate_limit_headers,
  insert_string_headers, allow_response, deny_response, at_least_one, and_then,
}
use open_api_gateway.ExtAuthz.Events.{Event, Env}
use open_api_gateway.ExtAuthz.PluginStep.{PluginEngine, Meta, run_plugin_log, finish_events}

abbrev pub text_or : String → Option String → String
text_or missing none = missing
text_or missing (some text) = text

-- The limiter after the request, what was recorded, and the response.
pub record Outcome (p : Platform) (h : Http) : Type 0 where
  pub limiter : RateLimiter p
  pub events : List Event
  pub response : Response h

unfoldable pub mode_event : String → RateLimitMode → Event
mode_event route_name RateLimitMode.degraded_local = Event.record_rate_limit_degraded route_name
mode_event route_name _ = Event.record_rate_limit_allowed route_name

module _ {p : Platform} (h : Http) where
  -- `early_deny`, with the plugins' log before it
  unfoldable pub early_deny :
      RateLimiter p → Meta → RouteConfig p → ℕ → String → List Event → Outcome p h
  unfolding finish_events deny_response
  early_deny limiter meta route status error_code before = record {
    limiter = limiter;
    events = before ++ finish_events meta route status none "none" [];
    response = deny_response h status error_code meta.request_id;
  }

  unfoldable pub too_many_requests :
      PluginEngine
      → RateLimiter p
      → Meta
      → RouteConfig p
      → Option String
      → RateDecision
      → HeaderMap h
      → Outcome p h
  unfolding insert_text finish_events run_plugin_log
  too_many_requests engine limiter meta route auth_subject decision response_headers = record {
    limiter = limiter;
    events =
        Event.record_rate_limit_denied route.name
        ∷ finish_events meta route 429 auth_subject (as_header_value decision.mode)
            (run_plugin_log engine 429);
    response = record {
      status = 429;
      headers =
          insert_text h "retry-after" (decimal (at_least_one (decision.retry_after_ms / 1000)))
            response_headers;
      body = no_body;
    };
  }

  unfoldable pub allowed :
      PluginEngine
      → RateLimiter p
      → Meta
      → RouteConfig p
      → Option String
      → RateDecision
      → List (String × String)
      → HeaderMap h
      → Outcome p h
  unfolding mode_event finish_events run_plugin_log allow_response insert_string_headers
  allowed engine limiter meta route auth_subject decision upstream_headers response_headers =
      record {
        limiter = limiter;
        events =
            mode_event route.name decision.mode
            ∷ finish_events meta route 200 auth_subject (as_header_value decision.mode)
                (run_plugin_log engine 200);
        response =
            allow_response h (insert_string_headers h upstream_headers response_headers)
              meta.request_id;
      }

  -- What follows the rate limiter's answer.
  unfoldable pub after_limit :
      PluginEngine
      → ℕ
      → RateLimiter p
      → Meta
      → RouteConfig p
      → Option String
      → List (String × String)
      → HeaderMap h
      → Result RateLimitError RateDecision
      → Outcome p h
  unfolding too_many_requests allowed early_deny insert_rate_limit_headers run_plugin_log
  after_limit engine now_secs limiter meta route auth_subject upstream_headers response_headers
        (ok decision) =
      let headers = insert_rate_limit_headers h now_secs decision response_headers in
      if not decision.allowed
      then too_many_requests engine limiter meta route auth_subject decision headers
      else allowed engine limiter meta route auth_subject decision upstream_headers headers
  after_limit engine now_secs limiter meta route auth_subject upstream_headers response_headers
        (err _) =
      early_deny limiter meta route 503 "rate_limiter_unavailable"
        (Event.record_rate_limit_denied route.name ∷ run_plugin_log engine 503)

module _ {p : Platform} {j : Jwt} (h : Http) where
  unfoldable pub bucket_key : Env p j → RouteConfig p → HeaderMap h → HeaderMap h → String
  unfolding get_header client_ip build_key
  bucket_key env route headers response_headers =
      let key_value =
        if route.rate_limit.key_by == "sub"
        then text_or "anonymous" (and_then (get_header h "x-auth-sub" response_headers) h.to_str)
        else client_ip h headers env.config.gateway.trust_forwarded_headers in
      build_key env.config.rate_limits.redis_key_prefix route.name route.rate_limit.key_by key_value

  unfoldable pub limit_step :
      Env p j
      → RateLimiter p
      → Meta
      → RouteConfig p
      → HeaderMap h
      → Option String
      → List (String × String)
      → HeaderMap h
      → Outcome p h
  unfolding bucket_key after_limit
  limit_step env limiter meta route headers auth_subject upstream_headers response_headers =
      let (after, result) =
        RateLimit.check p env.world (bucket_key env route headers response_headers)
          route.rate_limit.bucket_capacity route.rate_limit.refill_rate_per_sec limiter in
      after_limit h env.execute_access env.now_secs after meta route auth_subject upstream_headers
        response_headers result
