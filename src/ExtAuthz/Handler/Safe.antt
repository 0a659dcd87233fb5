-- ===== src/ExtAuthz/Handler/Safe.antt =====
-- What a request that controlplane/src/extauthz/handler.rs allows has passed.
use open_api_gateway.Prelude.{
  String, true, false, Option, some, List, [], ◌≡◌, ◌⊎◌, refl, subst, arith, Bool-cases, inl, inr,
}
use open_api_gateway.Prelude.Result.{Result, ok, err}
use open_api_gateway.Config.Types.{Platform, RouteConfig}
use open_api_gateway.Auth.Types.{Jwt}
use open_api_gateway.RateLimit.{RateLimiter, RateLimitError, RateDecision}
use open_api_gateway.RateLimit
use open_api_gateway.ExtAuthz.RouteMatch.{match_route}
use open_api_gateway.ExtAuthz.Headers.{Http, HeaderMap, deny_response}
use open_api_gateway.ExtAuthz.Events.{Env}
use open_api_gateway.ExtAuthz.AuthStep.{AuthDeny, apply_auth}
use open_api_gateway.ExtAuthz.AuthStep.Sound.{IsAuthorised, Sound, apply_auth-Sound}
use open_api_gateway.ExtAuthz.PluginStep.{Meta, execute_access_plugins}
use open_api_gateway.ExtAuthz.LimitStep.{
  early_deny, after_limit, too_many_requests, limit_step, bucket_key,
}
use open_api_gateway.ExtAuthz.Handler.{
  after_auth, auth_step, after_plugins, plugin_step, route_step, check_inner, meta_of,
  allows_method,
}

module _ {p : Platform} {j : Jwt} (h : Http) where
  -- The rate limiter let the request through, under the key that follows from the headers which the
  -- authentication granted.
  pub record IsWithinLimit (env : Env p j) (limiter : RateLimiter p) (route : RouteConfig p)
      (headers response_headers : HeaderMap h) : Type 0 where
    pub granted : HeaderMap h
    pub subject : Option String
    pub decision : RateDecision
    pub authenticated : (apply_auth h env route headers response_headers).1 ≡ ok (granted, subject)
    pub decided :
        (RateLimit.check p env.world
          (bucket_key h env route headers granted)
          route.rate_limit.bucket_capacity
          route.rate_limit.refill_rate_per_sec
          limiter).1
        ≡ ok decision
    pub allows : decision.allowed ≡ true

  after_limit-ok :
      (env : Env p j) (limiter : RateLimiter p) (meta : Meta) (route : RouteConfig p)
      (subject : Option String) (upstream : List (String × String)) (headers : HeaderMap h)
      (r : Result RateLimitError RateDecision)
      → (after_limit h env.execute_access env.now_secs limiter meta route subject upstream headers
          r).response.status
        ≡ 200
      → (decision : RateDecision) × (r ≡ ok decision) × (decision.allowed ≡ true)
  unfolding after_limit too_many_requests early_deny deny_response
  after_limit-ok env limiter meta route subject upstream headers (err e) k =
      absurd (omega (arith, k))
  after_limit-ok env limiter meta route subject upstream headers (ok decision) k =
      elim (Bool-cases decision.allowed) [
        | inl e ↦ (decision, refl, e)
        | inr e ↦ absurd (let bad = rw e at k in omega (arith, bad))
      ]

  auth_step-ok :
      (env : Env p j) (limiter : RateLimiter p) (meta : Meta) (route : RouteConfig p)
      (headers response_headers : HeaderMap h) (upstream : List (String × String))
      (r : Result AuthDeny (HeaderMap h × Option String))
      → (apply_auth h env route headers response_headers).1 ≡ r
      → Sound h ((route.auth_required ≡ false) ⊎ IsAuthorised h env route headers) r
      → (after_auth h env limiter meta route headers upstream r).response.status ≡ 200
      → ((route.auth_required ≡ false) ⊎ IsAuthorised h env route headers)
        × IsWithinLimit env limiter route headers response_headers
  unfolding after_auth early_deny deny_response limit_step
  auth_step-ok env limiter meta route headers response_headers upstream (err deny) e s k =
      absurd (s k)
  auth_step-ok env limiter meta route headers response_headers upstream (ok (granted, subject)) e s
        k =
      let (decision, made, lets) = after_limit-ok env _ meta route subject upstream granted _ k in
      (
        s,
        record {
          granted = granted;
          subject = subject;
          decision = decision;
          authenticated = e;
          decided = made;
          allows = lets;
        },
      )

  -- A request for a matched route that the plugins let go on and that is answered with 200 uses a
  -- method of the route, has a valid token with the route's scopes unless the route needs none, and
  -- was let through by the rate limiter, called with the route's capacity and refill rate under the key
  -- of the route and the authenticated subject or the client's address.
  pub check_inner-ok :
      (env : Env p j) (limiter : RateLimiter p) (headers : HeaderMap h)
      (method path request_id : String) (route : RouteConfig p) (upstream : List (String × String))
      (response_headers : HeaderMap h)
      → match_route env.config.routes (meta_of h headers method path request_id).host path
        ≡ some route
      → (execute_access_plugins h env.execute_access route
          (meta_of h headers method path request_id)
          headers
          []).1
        ≡ ok (upstream, response_headers)
      → (check_inner h env limiter headers method path request_id).response.status ≡ 200
      → (allows_method route method ≡ true)
        × ((route.auth_required ≡ false) ⊎ IsAuthorised h env route headers)
        × IsWithinLimit env limiter route headers response_headers
  unfolding check_inner route_step plugin_step auth_step
  check_inner-ok env limiter headers method path request_id route upstream response_headers matched
        plugins k =
      let meta = meta_of h headers method path request_id in
      let routed =
        subst (λ r. (route_step h env limiter meta headers r).response.status ≡ 200) matched k in
      elim (Bool-cases (allows_method route method)) [
        | inr e ↦ absurd (let bad = rw e at routed in omega (arith, bad))
        | inl e ↦
            let passed = rw e at routed in
            let authenticated =
              subst (λ r. (after_plugins h env limiter meta route headers r).response.status ≡ 200)
                plugins passed in
            let (authorised, within) =
              auth_step-ok env limiter meta route headers response_headers upstream
                (apply_auth h env route headers response_headers).1 refl
                (apply_auth-Sound h env route headers response_headers) authenticated in
            (e, authorised, within)
      ]
