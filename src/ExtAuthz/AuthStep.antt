-- ===== src/ExtAuthz/AuthStep.antt =====
-- `apply_auth` of controlplane/src/extauthz/auth_step.rs
pub mod Sound
use open_api_gateway.Prelude.{
  ℕ, String, ◌==◌, not, Option, none, some, List, [], ◌∷◌, find, if◌then◌else◌,
}
use open_api_gateway.Prelude.Text.{join}
use open_api_gateway.Prelude.Result.{Result, ok, err}
use open_api_gateway.Config.Types.{Platform, RouteConfig, AuthProvider}
use open_api_gateway.Auth.Error.{AuthError, http_status, error_code}
use open_api_gateway.Auth.Types.{Jwt, ValidatedIdentity}
use open_api_gateway.Auth.Validator.{unwrap_or}
use open_api_gateway.Auth.Cache.{JwksCache, get, validate_with_refresh}
use open_api_gateway.ExtAuthz.Headers.{
  Http, HeaderMap, BearerResult, valid, malformed, extract_bearer, insert_text,
}
use open_api_gateway.ExtAuthz.Events.{Event, Env}

pub record AuthDeny : Type 0 where
  pub status : ℕ
  pub error_code : String

-- What was recorded, and the denial or else the response headers and the subject.
abbrev pub AuthResult : Http → Type 0
AuthResult h = List Event × Result AuthDeny (HeaderMap h × Option String)

abbrev pub deny {ℓ} : {A : Type ℓ} → String → String → ℕ → String → List Event × Result AuthDeny A
deny route_name reason status code = (
  Event.record_auth_failure route_name reason ∷ [],
  err record { status = status; error_code = code },
)

module _ (h : Http) where
  unfoldable pub grant : ValidatedIdentity → HeaderMap h → HeaderMap h × Option String
  unfolding insert_text
  grant identity response_headers = (
    insert_text h "x-auth-scopes" (join "," identity.scopes) (
        insert_text h "x-auth-iss" identity.iss
          (insert_text h "x-auth-sub" identity.sub response_headers)),
    some identity.sub,
  )

module _ {p : Platform} (h : Http) where
  unfoldable pub conclude :
      RouteConfig p → HeaderMap h → Result AuthError ValidatedIdentity → AuthResult h
  unfolding grant http_status error_code
  conclude route response_headers (ok identity) = ([], ok (grant h identity response_headers))
  conclude route response_headers (err e) =
      deny route.name (error_code e) (http_status e) (error_code e)

module _ {p : Platform} {j : Jwt} where
  -- The provider of the route's token, in the configuration and among the caches.
  unfoldable pub find_provider : Env p j → RouteConfig p → Option (AuthProvider × JwksCache j)
  unfolding get
  find_provider env route =
      let provider_name = unwrap_or "main" route.auth_provider in
      elim (find (λ provider. provider.name == provider_name) env.config.auth.providers) [
        | none ↦ none
        | some provider ↦ elim (get j provider_name env.caches) [
          | none ↦ none
          | some cache ↦ some (provider, cache)
        ]
      ]

module _ {p : Platform} {j : Jwt} (h : Http) where
  unfoldable pub check_token : Env p j → RouteConfig p → HeaderMap h → String → AuthResult h
  unfolding find_provider conclude validate_with_refresh
  check_token env route response_headers token = elim (find_provider env route) [
    | none ↦ deny route.name "unknown_provider" 503 "auth_provider_unavailable"
    | some (provider, cache) ↦ conclude h route response_headers (
        validate_with_refresh j env.now token provider cache (env.refreshed cache.provider.name)
          (unwrap_or [] route.required_scopes))
  ]

  unfoldable pub check_bearer :
      Env p j → RouteConfig p → HeaderMap h → Option BearerResult → AuthResult h
  unfolding check_token
  check_bearer env route response_headers none = deny route.name "missing_token" 401 "missing_token"
  check_bearer env route response_headers (some malformed) =
      deny route.name "invalid_token_format" 401 "invalid_token_format"
  check_bearer env route response_headers (some (valid token)) =
      check_token env route response_headers token

  unfoldable pub apply_auth : Env p j → RouteConfig p → HeaderMap h → HeaderMap h → AuthResult h
  unfolding check_bearer extract_bearer
  apply_auth env route headers response_headers =
      if◌then◌else◌ {A = AuthResult h} (not route.auth_required) ([], ok (response_headers, none))
        (check_bearer env route response_headers (extract_bearer h headers))
