-- ===== src/ExtAuthz/AuthStep/Sound.antt =====
-- What `apply_auth` of controlplane/src/extauthz/auth_step.rs asks of a request.
use open_api_gateway.Prelude.{
  String, Bool, true, false, not, Option, none, some, [], if◌then◌else◌, ◌≡◌, ◌≢◌, ◌⊎◌, refl, arith,
  Option-cases, inl, inr,
}
use open_api_gateway.Prelude.Result.{Result, ok, err}
use open_api_gateway.Config.Types.{Platform, RouteConfig, AuthProvider}
use open_api_gateway.Auth.Error.{AuthError, http_status}
use open_api_gateway.Auth.Types.{Jwt, ValidatedIdentity}
use open_api_gateway.Auth.Validator.{unwrap_or}
use open_api_gateway.Auth.Cache.{JwksCache, validate_with_refresh}
use open_api_gateway.ExtAuthz.Headers.{
  Http, HeaderMap, extract_bearer, valid, malformed, BearerResult,
}
use open_api_gateway.ExtAuthz.Events.{Env}
use open_api_gateway.ExtAuthz.AuthStep.{
  AuthDeny, AuthResult, apply_auth, check_bearer, check_token, find_provider, conclude,
}

http_status-not_ok : (e : AuthError) → http_status e ≢ 200
unfolding http_status
http_status-not_ok AuthError.insufficient_scopes h = omega arith
http_status-not_ok AuthError.auth_provider_unavailable h = omega arith
http_status-not_ok (AuthError.jwks_fetch _) h = omega arith
http_status-not_ok _ h = omega arith

module _ (h : Http) where
  -- What an authentication result says of the request: a denial is not a success.
  abbrev pub Sound : Type 0 → Result AuthDeny (HeaderMap h × Option String) → Type 0
  Sound P (ok granted) = P
  Sound P (err deny) = deny.status ≢ 200

  Sound-map :
      (P Q : Type 0) (r : Result AuthDeny (HeaderMap h × Option String))
      → (P → Q)
      → Sound P r
      → Sound Q r
  Sound-map P Q (ok granted) f s = f s
  Sound-map P Q (err deny) f s = s

  guarded-Sound :
      (required : Bool) (P : Type 0) (granted : HeaderMap h × Option String) (x : AuthResult h)
      → Sound P x.1
      → Sound
          ((required ≡ false) ⊎ P)
          (if◌then◌else◌ {A = AuthResult h} (not required) ([], ok granted) x).1
  guarded-Sound false P granted x s = inl refl
  guarded-Sound true P granted x s = Sound-map P _ x.1 inr s

  conclude-Sound :
      {p : Platform} (route : RouteConfig p) (headers : HeaderMap h)
      (r : Result AuthError ValidatedIdentity)
      → Sound ((identity : ValidatedIdentity) × (r ≡ ok identity)) (conclude h route headers r).1
  unfolding conclude
  conclude-Sound route headers (ok identity) = (identity, refl)
  conclude-Sound route headers (err e) = http_status-not_ok e

module _ {p : Platform} {j : Jwt} (h : Http) where
  -- The request has a bearer token that its route's provider vouches for, with the scopes that the
  -- route requires.
  pub record IsAuthorised (env : Env p j) (route : RouteConfig p) (headers : HeaderMap h)
      : Type 0 where
    pub token : String
    pub provider : AuthProvider
    pub cache : JwksCache j
    pub identity : ValidatedIdentity
    pub bearer : extract_bearer h headers ≡ some (valid token)
    pub provider_found : find_provider env route ≡ some (provider, cache)
    pub validated :
        validate_with_refresh j env.now token provider cache
          (env.refreshed cache.provider.name)
          (unwrap_or [] route.required_scopes)
        ≡ ok identity

  check_token-Sound :
      (env : Env p j) (route : RouteConfig p) (headers response_headers : HeaderMap h)
      (token : String)
      → extract_bearer h headers ≡ some (valid token)
      → Sound h (IsAuthorised env route headers) (check_token h env route response_headers token).1
  unfolding check_token
  check_token-Sound env route headers response_headers token bearer =
      elim (Option-cases (find_provider env route)) [
        | inl e ↦ rw (check_token, e) (λ k. omega arith)
        | inr ((provider, cache), e) ↦
            let result =
              validate_with_refresh j env.now token provider cache
                (env.refreshed cache.provider.name) (unwrap_or [] route.required_scopes) in
            rw (check_token, e)
              (Sound-map h ((identity : ValidatedIdentity) × (result ≡ ok identity))
                (IsAuthorised env route headers) (conclude h route response_headers result).1
                (λ (identity, validated). record {
                  token = token;
                  provider = provider;
                  cache = cache;
                  identity = identity;
                  bearer = bearer;
                  provider_found = e;
                  validated = validated;
                })
                (conclude-Sound h route response_headers result))
      ]

  check_bearer-Sound :
      (env : Env p j) (route : RouteConfig p) (headers response_headers : HeaderMap h)
      (b : Option BearerResult)
      → extract_bearer h headers ≡ b
      → Sound h (IsAuthorised env route headers) (check_bearer h env route response_headers b).1
  unfolding check_bearer
  check_bearer-Sound env route headers response_headers none e = λ k. omega arith
  check_bearer-Sound env route headers response_headers (some malformed) e = λ k. omega arith
  check_bearer-Sound env route headers response_headers (some (valid token)) e =
      check_token-Sound env route headers response_headers token e

  pub apply_auth-Sound :
      (env : Env p j) (route : RouteConfig p) (headers response_headers : HeaderMap h)
      → Sound h
          ((route.auth_required ≡ false) ⊎ IsAuthorised env route headers)
          (apply_auth h env route headers response_headers).1
  unfolding apply_auth
  apply_auth-Sound env route headers response_headers =
      guarded-Sound h route.auth_required _ _ _
        (check_bearer-Sound env route headers response_headers (extract_bearer h headers) refl)
