-- ===== src/Tests.antt =====
-- The theorems applied to a sample configuration and request.
pub mod Sample
pub mod Limits
pub mod Startup
pub mod Streams
pub mod Requests
pub mod Bootstrap
pub mod Plugins
pub mod Control
use Sample.{
  platform, provider, orders, home, rate_limits, config, claims, jwt, key, cache, document, http,
  world, limiter, env, headers,
}
use open_api_gateway.Prelude.{
  ℕ, suc, ◌+◌, ◌-◌, ◌^◌, ◌≤◌, String, ◌==◌, Bool, true, false, Option, none, some, List, [], ◌∷◌,
  ◌++◌, All, map, filter, find, leb, leb_of_le, ◌≡◌, ◌≢◌, ◌↔◌, ◌⊎◌, refl, arith,
}
use open_api_gateway.Prelude.Text.{eq_ignore_ascii_case, strip_prefix, rsplit_colon, parse_u16}
use open_api_gateway.Prelude.Text.Colon.{with_colon}
use open_api_gateway.Prelude.Text.Decimal
use open_api_gateway.RateLimit
use open_api_gateway.Prelude.Result.{Result, ok, err}
use open_api_gateway.Config.Types.{Platform, GatewayConfig, RouteConfig}
use open_api_gateway.Config.Validity.{IsValid}
use open_api_gateway.Config.Validation.{
  validate, check_version, check_uniqueness, check_referential_integrity, check_value_constraints,
  check_conditional_requirements,
}
use open_api_gateway.Config.Errors.{ConfigErrors}
use open_api_gateway.Config.Validation.Exact.{validate-IsValid}
use open_api_gateway.Auth.Error.{AuthError}
use open_api_gateway.Auth.Types.{ValidatedIdentity, pos}
use open_api_gateway.Auth.Validator.{validate_token}
use open_api_gateway.Auth.Validator.Sound.{IsAuthentic, validate_token-IsAuthentic}
use open_api_gateway.Auth.Cache.{is_stale, validate_with_refresh, parse_jwks_keys, decode_key}
use open_api_gateway.Auth.Cache.Refresh.{validate_with_refresh-IsAuthentic}
use open_api_gateway.ExtAuthz.RouteMatch.{match_route}
use open_api_gateway.ExtAuthz.RouteMatch.Best.{Picks, Serves, match_route-Picks}
use open_api_gateway.ExtAuthz.Handler.{check_inner, meta_of, allows_method}
use open_api_gateway.ExtAuthz.PluginStep.{execute_access_plugins}
use open_api_gateway.ExtAuthz.AuthStep.Sound.{IsAuthorised}
use open_api_gateway.ExtAuthz.Handler.Safe.{IsWithinLimit, check_inner-ok}

matched :
    match_route config.routes (meta_of http headers "GET" "/orders/1" "r1").host "/orders/1"
    ≡ some orders
unfolding match_route meta_of filter
matched = refl

route_found : match_route config.routes "shop" "/orders/1" ≡ some orders
unfolding match_route filter
route_found = refl

passed_on :
    (execute_access_plugins http env.execute_access orders
      (meta_of http headers "GET" "/orders/1" "r1")
      headers
      []).1
    ≡ ok ([], [])
unfolding execute_access_plugins
passed_on = refl

answers_200 :
    (check_inner http env (limiter true) headers "GET" "/orders/1" "r1").response.status ≡ 200
unfolding check_inner filter eq_ignore_ascii_case strip_prefix RateLimit.check
answers_200 = refl

check_inner-ok_example :
    (allows_method orders "GET" ≡ true)
    × ((true ≡ false) ⊎ IsAuthorised http env orders headers)
    × IsWithinLimit http env (limiter true) orders headers []
check_inner-ok_example =
    check_inner-ok http env (limiter true) headers "GET" "/orders/1" "r1" orders [] [] matched
      passed_on answers_200

abbrev identity : ValidatedIdentity
identity = record {
  sub = "alice";
  iss = "https://issuer";
  aud = "api" ∷ [];
  scopes = "read" ∷ "write" ∷ [];
  exp_unix = pos 100;
}

token_accepted : validate_token jwt "k1" provider (key "k1" ∷ []) ("read" ∷ []) ≡ ok identity
unfolding validate_token
token_accepted = refl

validate_token-IsAuthentic_example :
    IsAuthentic "k1" provider (key "k1" ∷ []) ("read" ∷ []) identity
validate_token-IsAuthentic_example =
    validate_token-IsAuthentic "k1" provider (key "k1" ∷ []) ("read" ∷ []) identity token_accepted

-- The key of the token is only there after the refresh.
refreshed_accepted :
    validate_with_refresh jwt 5 "k2" provider cache (key "k2" ∷ []) ("read" ∷ []) ≡ ok identity
unfolding validate_with_refresh
refreshed_accepted = refl

validate_with_refresh-IsAuthentic_example :
    (is_stale jwt 5 cache ≡ false)
    × (IsAuthentic "k2" provider cache.keys ("read" ∷ []) identity
        ⊎ ((validate_token jwt "k2" provider cache.keys ("read" ∷ [])
              ≡ err AuthError.unknown_key_id)
            × IsAuthentic "k2" provider (key "k2" ∷ []) ("read" ∷ []) identity))
validate_with_refresh-IsAuthentic_example =
    validate_with_refresh-IsAuthentic 5 "k2" provider cache (key "k2" ∷ []) ("read" ∷ []) identity
      refreshed_accepted

document_parsed : parse_jwks_keys jwt document ≡ ok (key "k1" ∷ [])
unfolding parse_jwks_keys
document_parsed = refl

validate-IsValid_example : (validate config ≡ ok tt) ↔ IsValid config
validate-IsValid_example = validate-IsValid config

match_route-Picks_example :
    Picks (Serves "shop" "/orders/1") config.routes (match_route config.routes "shop" "/orders/1")
match_route-Picks_example = match_route-Picks config.routes "shop" "/orders/1"

-- A later version of the format.
