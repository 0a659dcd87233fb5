-- ===== src/ExtAuthz/Handler/Counted.antt =====
-- How often an answer of controlplane/src/extauthz/handler.rs is counted and logged.
use open_api_gateway.Prelude.{
  ℕ, String, Bool, true, false, not, Option, none, some, List, [], ◌∷◌, ◌++◌, refl, Bool-cases,
  Option-cases, if◌then◌else◌, inl, inr,
}
use open_api_gateway.Prelude.Result.{Result, ok, err}
use open_api_gateway.Config.Types.{Platform, RouteConfig}
use open_api_gateway.Auth.Error.{AuthError}
use open_api_gateway.Auth.Types.{Jwt, ValidatedIdentity}
use open_api_gateway.RateLimit.{
  RateLimiter, RateLimitError, RateDecision, RateLimitMode, as_header_value,
}
use open_api_gateway.ExtAuthz.RouteMatch.{match_route}
use open_api_gateway.ExtAuthz.Headers.{
  Http, HeaderMap, Response, BearerResult, valid, malformed, extract_bearer, deny_response,
  allow_response,
}
use open_api_gateway.ExtAuthz.Events.{Event, Env}
use open_api_gateway.ExtAuthz.AuthStep.{
  AuthDeny, AuthResult, apply_auth, check_bearer, check_token, find_provider, conclude,
}
use open_api_gateway.ExtAuthz.PluginStep.{
  PluginEngine, Meta, execute_access_plugins, run_plugin_log, finish_events,
}
use open_api_gateway.ExtAuthz.LimitStep.{
  early_deny, after_limit, too_many_requests, allowed, mode_event, limit_step,
}
use open_api_gateway.ExtAuthz.Handler.{
  after_auth, auth_step, after_plugins, plugin_step, route_step, check_inner, check, meta_of,
  allows_method,
}
use open_api_gateway.ExtAuthz.Handler.Reporting.{
  IsQuiet, Reports, Reports-after, Reports-before, run_plugin_log-IsQuiet, finish_events-Reports,
  IsReliable, Reported, execute_access_plugins-Reported,
}

mode_event-IsQuiet : (name : String) (mode : RateLimitMode) → IsQuiet (mode_event name mode ∷ [])
unfolding mode_event
mode_event-IsQuiet name RateLimitMode.redis = (refl, refl)
mode_event-IsQuiet name RateLimitMode.degraded_local = (refl, refl)
mode_event-IsQuiet name RateLimitMode.fail_open = (refl, refl)

module _ (h : Http) where
  guarded-IsQuiet :
      (b : Bool) (granted : HeaderMap h × Option String) (x : AuthResult h)
      → IsQuiet x.0
      → IsQuiet (if◌then◌else◌ {A = AuthResult h} b ([], ok granted) x).0
  guarded-IsQuiet true granted x q = (refl, refl)
  guarded-IsQuiet false granted x q = q

module _ {p : Platform} (h : Http) where
  conclude-IsQuiet :
      (route : RouteConfig p) (headers : HeaderMap h) (r : Result AuthError ValidatedIdentity)
      → IsQuiet (conclude h route headers r).0
  unfolding conclude
  conclude-IsQuiet route headers (ok identity) = (refl, refl)
  conclude-IsQuiet route headers (err e) = (refl, refl)

  early_deny-Reports :
      (limiter : RateLimiter p) (meta : Meta) (route : RouteConfig p) (status : ℕ) (code : String)
      (before : List Event)
      → IsQuiet before
      → Reports
          (early_deny h limiter meta route status code before).response.status
          (early_deny h limiter meta route status code before).events
  unfolding early_deny deny_response
  early_deny-Reports limiter meta route status code before q =
      Reports-after status before (finish_events meta route status none "none" []) q
        (finish_events-Reports meta route status none "none" [] (refl, refl))

  after_limit-Reports :
      (engine : PluginEngine) (now_secs : ℕ) (limiter : RateLimiter p) (meta : Meta)
      (route : RouteConfig p) (subject : Option String) (upstream : List (String × String))
      (headers : HeaderMap h) (r : Result RateLimitError RateDecision)
      → Reports
          (after_limit h engine now_secs limiter meta route subject upstream headers
            r).response.status
          (after_limit h engine now_secs limiter meta route subject upstream headers r).events
  unfolding after_limit too_many_requests allowed allow_response
  after_limit-Reports engine now_secs limiter meta route subject upstream headers (err e) =
      early_deny-Reports limiter meta route 503 "rate_limiter_unavailable"
        (Event.record_rate_limit_denied route.name ∷ run_plugin_log engine 503)
        (run_plugin_log-IsQuiet engine 503)
  after_limit-Reports engine now_secs limiter meta route subject upstream headers (ok decision) =
      elim (Bool-cases decision.allowed) [
        | inl e ↦
            let report =
              finish_events meta route 200 subject (as_header_value decision.mode)
                (run_plugin_log engine 200) in
            rw e (
              Reports-after 200 (mode_event route.name decision.mode ∷ []) report
                (mode_event-IsQuiet route.name decision.mode)
                (finish_events-Reports meta route 200 subject (as_header_value decision.mode)
                  (run_plugin_log engine 200) (run_plugin_log-IsQuiet engine 200)))
        | inr e ↦ rw e (
            finish_events-Reports meta route 429 subject (as_header_value decision.mode)
              (run_plugin_log engine 429) (run_plugin_log-IsQuiet engine 429))
      ]

module _ {p : Platform} {j : Jwt} (h : Http) where
  check_token-IsQuiet :
      (env : Env p j) (route : RouteConfig p) (headers : HeaderMap h) (token : String)
      → IsQuiet (check_token h env route headers token).0
  unfolding check_token
  check_token-IsQuiet env route headers token = elim (Option-cases (find_provider env route)) [
    | inl e ↦ rw (check_token, e) (refl, refl)
    | inr ((provider, cache), e) ↦ rw (check_token, e) (conclude-IsQuiet h route headers _)
  ]

  check_bearer-IsQuiet :
      (env : Env p j) (route : RouteConfig p) (headers : HeaderMap h) (b : Option BearerResult)
      → IsQuiet (check_bearer h env route headers b).0
  unfolding check_bearer
  check_bearer-IsQuiet env route headers none = (refl, refl)
  check_bearer-IsQuiet env route headers (some malformed) = (refl, refl)
  check_bearer-IsQuiet env route headers (some (valid token)) =
      check_token-IsQuiet env route headers token

  apply_auth-IsQuiet :
      (env : Env p j) (route : RouteConfig p) (headers response_headers : HeaderMap h)
      → IsQuiet (apply_auth h env route headers response_headers).0
  unfolding apply_auth
  apply_auth-IsQuiet env route headers response_headers =
      guarded-IsQuiet h (not route.auth_required) (response_headers, none) _
        (check_bearer-IsQuiet env route response_headers (extract_bearer h headers))

  after_auth-Reports :
      (env : Env p j) (limiter : RateLimiter p) (meta : Meta) (route : RouteConfig p)
      (headers : HeaderMap h) (upstream : List (String × String))
      (r : Result AuthDeny (HeaderMap h × Option String))
      → Reports
          (after_auth h env limiter meta route headers upstream r).response.status
          (after_auth h env limiter meta route headers upstream r).events
  unfolding after_auth limit_step
  after_auth-Reports env limiter meta route headers upstream (err deny) =
      early_deny-Reports h limiter meta route deny.status deny.error_code
        (run_plugin_log env.execute_access deny.status)
        (run_plugin_log-IsQuiet env.execute_access deny.status)
  after_auth-Reports env limiter meta route headers upstream (ok (granted, subject)) =
      after_limit-Reports h env.execute_access env.now_secs _ meta route subject upstream granted _

  plugin_step-Reports :
      (env : Env p j) (limiter : RateLimiter p) (meta : Meta) (route : RouteConfig p)
      (headers : HeaderMap h) (events : List Event)
      (r : Result (Response h) (List (String × String) × HeaderMap h))
      → Reported h events r
      → Reports
          (after_plugins h env limiter meta route headers r).response.status
          (events ++ (after_plugins h env limiter meta route headers r).events)
  unfolding after_plugins auth_step
  plugin_step-Reports env limiter meta route headers events (err response) reported =
      Reports-before response.status events [] reported (refl, refl)
  plugin_step-Reports env limiter meta route headers events (ok (upstream, response_headers))
        quiet =
      let (before, result) = apply_auth h env route headers response_headers in
      let outcome = after_auth h env limiter meta route headers upstream result in
      Reports-after outcome.response.status events (before ++ outcome.events) quiet (
        Reports-after outcome.response.status before outcome.events
          (apply_auth-IsQuiet env route headers response_headers)
          (after_auth-Reports env limiter meta route headers upstream result))

  route_step-Reports :
      (env : Env p j) (limiter : RateLimiter p) (meta : Meta) (headers : HeaderMap h)
      (r : Option (RouteConfig p))
      → IsReliable h env.execute_access
      → Reports
          (route_step h env limiter meta headers r).response.status
          (route_step h env limiter meta headers r).events
  unfolding route_step plugin_step allow_response
  route_step-Reports env limiter meta headers none reliable = (refl, refl)
  route_step-Reports env limiter meta headers (some route) reliable =
      elim (Bool-cases (allows_method route meta.method)) [
        | inr e ↦
            rw e (early_deny-Reports h limiter meta route 405 "method_not_allowed" [] (refl, refl))
        | inl e ↦
            let (events, result) =
              execute_access_plugins h env.execute_access route meta headers [] in
            rw e (
              plugin_step-Reports env limiter meta route headers events result (
                execute_access_plugins-Reported h env.execute_access route meta headers []
                  reliable))
      ]

  -- With a plugin engine that answers, and that ends a request only with the status of an HTTP
  -- response, `check` leaves of a request that has a permit exactly one request metric and one entry in
  -- the access log, both with the status of the response.
  pub check-Reports :
      (env : Env p j) (limiter : RateLimiter p) (headers : HeaderMap h)
      (method path request_id : String)
      → IsReliable h env.execute_access
      → Reports
          (check h true env limiter headers method path request_id).response.status
          (check h true env limiter headers method path request_id).events
  unfolding check check_inner
  check-Reports env limiter headers method path request_id reliable =
      let outcome = check_inner h env limiter headers method path request_id in
      let meta = meta_of h headers method path request_id in
      Reports-after outcome.response.status (Event.inc_inflight ∷ [])
        (outcome.events ++ Event.dec_inflight ∷ []) (refl, refl)
        (Reports-before outcome.response.status outcome.events (Event.dec_inflight ∷ [])
          (route_step-Reports env limiter meta headers
            (match_route env.config.routes meta.host path) reliable)
          (refl, refl))
