-- ===== src/Config/Validation/ItemsExact.antt =====
-- When the checks of controlplane/src/config/validation.rs on one provider, service, plugin engine or
-- route report nothing.
use open_api_gateway.Prelude.{
  String, Bool, true, false, not, ◌&&◌, Option, none, some, List, [], ◌∷◌, flat_map, Mem, ◌≡◌, refl,
  subst, ◌≢◌, ◌↔◌,
}
use open_api_gateway.Prelude.Text.{trim}
use open_api_gateway.Config.Types.{
  Platform, RouteConfig, ServiceConfig, AuthProvider, PluginsConfig,
}
use open_api_gateway.Config.Validity.{
  IsHostPort, IsValidProvider, IsValidRoute, IsValidService, IsValidEngine,
}
use open_api_gateway.Config.Validation.Checks.{valid_methods, valid_key_by, require, is_some}
use open_api_gateway.Config.Validation.Items.{
  check_provider_reference, check_scopes_present, check_route_references, check_provider,
  check_route_values, check_service, check_plugins_enabled, check_route_conditions,
}
use open_api_gateway.Config.Validation.Laws.{
  both, require-eq-nil, flat_map-eq-nil, id_iff, not-is_empty_text, not-is_empty, not-eqb-zero,
  not-ltb-one, not_iff, contains_iff, validate_host_port-eq-nil, starts_with_slash,
}
use open_api_gateway.Config.Validation.Names.{check_plugins-eq-nil}

pub check_provider-eq-nil :
    (p : Platform) (a : AuthProvider) → (check_provider p a ≡ []) ↔ IsValidProvider p a
unfolding check_provider
check_provider-eq-nil p a =
    let (to, from) = both (require _ _) _ (require-eq-nil _ _ (not-is_empty_text a.name)) (
      both (require _ _) (require _ _) (require-eq-nil _ _ (id_iff (p.is_url a.jwks_uri ≡ true)))
        (require-eq-nil _ _ (not-eqb-zero a.cache_ttl_seconds))) in
    (
      λ h. record { named = (to h).0; url = (to h).1.0; cached = (to h).1.1 },
      λ v. from (v.named, (v.url, v.cached)),
    )

pub check_service-eq-nil : (s : ServiceConfig) → (check_service s ≡ []) ↔ IsValidService s
unfolding check_service
check_service-eq-nil s =
    let (to, from) = both (require _ _) _ (require-eq-nil _ _ (not-is_empty_text s.name)) (
      both (require _ _) _ (require-eq-nil _ _ (not-is_empty s.endpoints)) (
        both (flat_map _ s.endpoints) (require _ _)
          (flat_map-eq-nil IsHostPort _ s.endpoints (λ ep. validate_host_port-eq-nil ep _))
          (require-eq-nil _ _ (starts_with_slash s.health_check.path)))) in
    (
      λ h.
          let t = to h in
          record { named = t.0; has_endpoints = t.1.0; endpoints = t.1.1.0; rooted = t.1.1.1 },
      λ v. from (v.named, (v.has_endpoints, (v.endpoints, v.rooted))),
    )

pub check_plugins_enabled-eq-nil :
    {p : Platform} (plugins : PluginsConfig p) (enabled : Bool)
    → (check_plugins_enabled plugins enabled ≡ []) ↔ (enabled ≡ true → IsValidEngine plugins)
unfolding check_plugins_enabled
check_plugins_enabled-eq-nil plugins false = (λ _ e. absurd (cc), λ _. refl)
check_plugins_enabled-eq-nil plugins true =
    let (to, from) =
      both (require _ _) _ (require-eq-nil _ _ (not-is_empty_text (trim plugins.directory))) (
        both (require _ _) _ (require-eq-nil _ _ (not-eqb-zero plugins.limits.max_memory_bytes)) (
          both (require _ _) (require _ _)
            (require-eq-nil _ _ (not-eqb-zero plugins.limits.max_instructions))
            (require-eq-nil _ _ (not-eqb-zero plugins.limits.chain_timeout_ms)))) in
    (
      λ h _.
          let t = to h in
          record { directory = t.0; memory = t.1.0; instructions = t.1.1.0; timeout = t.1.1.1 },
      λ all. let v = all refl in from (v.directory, (v.memory, (v.instructions, v.timeout))),
    )

-- The two checks on the provider of a route, which stand in two functions, together.
provider_known_iff :
    (known : List String) (route : String) (required : Bool) (provider : Option String)
    → ((check_provider_reference known route required provider ≡ [])
        × (not (required && not (is_some provider)) ≡ true))
      ↔ (required ≡ true → (name : String) × (provider ≡ some name) × Mem name known)
unfolding check_provider_reference
provider_known_iff known route false provider = (λ _ e. absurd (cc), λ _. (refl, refl))
provider_known_iff known route true none =
    (λ t _. absurd (cc (t.1)), λ all. absurd (let h = (all refl).1 in cc))
provider_known_iff known route true (some provider) =
    let (to, from) = require-eq-nil _ _ (contains_iff known provider) in
    (
      λ t _. (provider, refl, to t.0),
      λ all.
          let (name, e, m) = all refl in
          let same : name ≡ provider = cc in (from (subst (λ n. Mem n known) same m), refl),
    )

check_scopes_present-eq-nil :
    (prefix : String) (scopes : Option (List String))
    → (check_scopes_present prefix scopes ≡ []) ↔ (scopes ≢ some [])
unfolding check_scopes_present
check_scopes_present-eq-nil prefix none = (λ _ e. (cc), λ _. refl)
check_scopes_present-eq-nil prefix (some []) = (λ h. (cc), λ h. absurd (h refl))
check_scopes_present-eq-nil prefix (some (x ∷ xs)) = (λ _ e. (cc), λ _. refl)

module _ {p : Platform} (services providers : List String) (r : RouteConfig p) where
  abbrev RouteChecks : Type 0
  RouteChecks =
      (check_route_references services providers r ≡ [])
      × (check_route_values r ≡ [])
      × (check_route_conditions r ≡ [])

  pub route_checks_iff : RouteChecks ↔ IsValidRoute services providers r
  unfolding check_route_references check_route_values check_route_conditions
  route_checks_iff =
      let (references, from_references) =
        both (require _ _)
          (check_provider_reference providers r.name r.auth_required r.auth_provider)
          (require-eq-nil _ _ (contains_iff services r.upstream.service)) (id_iff _) in
      let (conditions, from_conditions) =
        both (require _ _) (check_scopes_present _ r.required_scopes)
          (require-eq-nil _ _ (id_iff _)) (check_scopes_present-eq-nil _ r.required_scopes) in
      let (values, from_values) =
        both (require _ _) _ (require-eq-nil _ _ (not-is_empty_text r.name)) (
          both (require _ _) _ (require-eq-nil _ _ (not-is_empty r.hostnames)) (
            both (require _ _) _ (require-eq-nil _ _ (not-is_empty r.methods)) (
              both (require _ _) _ (require-eq-nil _ _ (starts_with_slash r.path_prefix)) (
                both (flat_map _ r.methods) _
                  (flat_map-eq-nil (λ m. Mem m valid_methods) _ r.methods
                    (λ m. require-eq-nil _ _ (contains_iff valid_methods m)))
                  (both (require _ _) _
                    (require-eq-nil _ _ (not-ltb-one r.rate_limit.bucket_capacity))
                    (both (require _ _) _
                      (require-eq-nil _ _
                        (not_iff (p.le r.rate_limit.refill_rate_per_sec (p.of_u64 0))))
                      (both (require _ _) _
                        (require-eq-nil _ _ (contains_iff valid_key_by r.rate_limit.key_by))
                        (check_plugins-eq-nil _ _ r.plugins)))))))) in
      let (known, from_known) =
        provider_known_iff providers r.name r.auth_required r.auth_provider in
      (
        λ t.
            let v = values t.1 in
            record {
              named = v.0;
              hosted = v.1.0;
              has_methods = v.1.1.0;
              rooted = v.1.1.1.0;
              methods = v.1.1.1.1.0;
              capacity = v.1.1.1.1.1.0;
              refill = v.1.1.1.1.1.1.0;
              key_by = v.1.1.1.1.1.1.1.0;
              plugins = v.1.1.1.1.1.1.1.1.0;
              plugins_unique = v.1.1.1.1.1.1.1.1.1;
              service_known = (references t.0).0;
              provider_known = known ((references t.0).1, (conditions t.2).0);
              scoped = (conditions t.2).1;
            },
        λ v. (
          from_references (v.service_known, (from_known v.provider_known).0),
          from_values (
            v.named,
            (
              v.hosted,
              (
                v.has_methods,
                (
                  v.rooted,
                  (v.methods, (v.capacity, (v.refill, (v.key_by, (v.plugins, v.plugins_unique))))),
                ),
              ),
            ),
          ),
          from_conditions ((from_known v.provider_known).1, v.scoped),
        ),
      )
