-- ===== src/Tests/Requests.antt =====
-- The theorems on the check service and the token applied to a plugin that ends every request.
use open_api_gateway.Prelude.{
  arith, true, false, eq_iff, ◌↔◌, ◌/◌, eqb, filter, ◌+◌, none, some, [], ◌∷◌, ◌≡◌, refl,
}
use open_api_gateway.Prelude.Text.{eq_ignore_ascii_case}
use open_api_gateway.Prelude.Result.{ok, IsOk}
use open_api_gateway.Auth.Types.{ValidatedIdentity}
use open_api_gateway.Auth.Validator.{validate_token}
use open_api_gateway.Auth.Validator.Complete.{HasDistinctKids, validate_token_iff}
use open_api_gateway.Auth.Validator.Sound.{IsAuthentic}
use open_api_gateway.ExtAuthz.Events.{Env, short_circuit}
use open_api_gateway.ExtAuthz.Handler.{check}
use open_api_gateway.ExtAuthz.Handler.Reporting.{Reports}
use open_api_gateway.ExtAuthz.Handler.Counted.{check-Reports}
use open_api_gateway.Observability.Metrics.{new_registry, record_all}
use open_api_gateway.Observability.Metrics.Class.{class_text}
use open_api_gateway.Observability.Metrics.Counted.{in_class, one_if, check-in_class}
use open_api_gateway.Tests.Sample.{platform, provider, jwt, key, http, limiter, env, headers}

abbrev guarded : Env platform jwt
guarded = record env { execute_access = some (λ request. ok (short_circuit "waf" 403 none [] 20)) }

check-Reports_example :
    Reports
      (check http true guarded (limiter true) headers "GET" "/orders/1" "r1").response.status
      (check http true guarded (limiter true) headers "GET" "/orders/1" "r1").events
check-Reports_example =
    check-Reports http guarded (limiter true) headers "GET" "/orders/1" "r1" (λ request. refl)

-- The 403 of the plugin is counted under the digit 4.
check-in_class_example :
    let outcome = check http true guarded (limiter true) headers "GET" "/orders/1" "r1" in
    in_class (class_text 4) (record_all outcome.events new_registry).http_requests_total
    ≡ in_class (class_text 4) new_registry.http_requests_total
      + one_if (eqb (outcome.response.status / 100) 4)
unfolding check filter eq_ignore_ascii_case
check-in_class_example =
    check-in_class http guarded (limiter true) headers "GET" "/orders/1" "r1" new_registry 4
      (λ request. refl) (omega arith) (omega arith) (omega arith) (omega arith)

kids_differ : HasDistinctKids (key "k1" ∷ key "k2" ∷ [])
kids_differ = ((λ h. let e : false ≡ true = (eq_iff "k1" "k2").1 h in cc, tt), (tt, tt))

validate_token_iff_example :
    IsOk (validate_token jwt "k1" provider (key "k1" ∷ key "k2" ∷ []) ("read" ∷ [])) ↔ (
      (identity : ValidatedIdentity) × IsAuthentic "k1" provider
        (key "k1" ∷ key "k2" ∷ [])
        ("read" ∷ [])
        identity)
validate_token_iff_example =
    validate_token_iff "k1" provider (key "k1" ∷ key "k2" ∷ []) ("read" ∷ []) kids_differ
