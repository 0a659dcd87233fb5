-- ===== src/Config/Validation/Exact.antt =====
-- `validate` of controlplane/src/config/validation.rs decides validity.
use open_api_gateway.Prelude.{
  String, Bool, true, false, not, ◌&&◌, ◌||◌, some, List, [], map, flat_map, All, is_empty-eq-nil,
  append-eq-nil, ◌≡◌, refl, ◌≢◌, ◌↔◌, arith, eqb_iff,
}
use open_api_gateway.Prelude.Text.{is_empty_text}
use open_api_gateway.Prelude.Result.{ok}
use open_api_gateway.Config.Types.{Platform, GatewayConfig, RouteConfig}
use open_api_gateway.Config.Errors.{duplicate_name}
use open_api_gateway.Config.Validity.{
  IsHostPort, IsUnique, IsValidPlugin, IsValidProvider, IsValidRoute, IsValidService, IsValidEngine,
  IsValid,
}
use open_api_gateway.Config.Validation.{
  check_version, check_uniqueness, service_names, provider_names, check_referential_integrity,
  check_host_ports, check_value_constraints, check_conditional_requirements, all_errors, validate,
}
use open_api_gateway.Config.Validation.Checks.{require}
use open_api_gateway.Config.Validation.Items.{
  check_route_references, check_provider, check_route_values, check_service, check_route_conditions,
}
use open_api_gateway.Config.Validation.Laws.{
  both, require-eq-nil, flat_map-eq-nil, All-both, id_iff, not-is_empty_text,
  validate_host_port-eq-nil, check_optional-eq-nil, check_enabled-eq-nil,
}
use open_api_gateway.Config.Validation.Names.{duplicates-eq-nil, check_plugins-eq-nil}
use open_api_gateway.Config.Validation.ItemsExact.{
  check_provider-eq-nil, check_service-eq-nil, check_plugins_enabled-eq-nil, route_checks_iff,
}

-- The three passes over the routes are one.
routes_iff :
    {p : Platform} (services providers : List String) (routes : List (RouteConfig p))
    → ((flat_map (check_route_references services providers) routes ≡ [])
        × (flat_map check_route_values routes ≡ [])
        × (flat_map check_route_conditions routes ≡ []))
      ↔ All (IsValidRoute services providers) routes
routes_iff services providers routes =
    let (refs, from_refs) =
      flat_map-eq-nil _ (check_route_references services providers) routes (λ r. id_iff _) in
    let (values, from_values) = flat_map-eq-nil _ check_route_values routes (λ r. id_iff _) in
    let (conds, from_conds) = flat_map-eq-nil _ check_route_conditions routes (λ r. id_iff _) in
    let (split_values, join_values) =
      All-both (λ r. check_route_values r ≡ []) (λ r. check_route_conditions r ≡ [])
        (λ r. (check_route_values r ≡ []) × (check_route_conditions r ≡ [])) routes
        (λ r. id_iff _) in
    let (split_all, join_all) =
      All-both (λ r. check_route_references services providers r ≡ [])
        (λ r. (check_route_values r ≡ []) × (check_route_conditions r ≡ []))
        (IsValidRoute services providers) routes
        (λ r.
          let (to, from) = route_checks_iff services providers r in
          (λ v. let t = from v in (t.0, (t.1, t.2)), λ t. to (t.0, t.1.0, t.1.1))) in
    (
      λ t. join_all (refs t.0, join_values (values t.1, conds t.2)),
      λ v.
          let (r, vc) = split_all v in
          let (v', c) = split_values vc in (from_refs r, from_values v', from_conds c),
    )

either_false : (a b : Bool) → (not (a || b) ≡ true) ↔ ((a ≡ false) × (b ≡ false))
either_false a b = ground arith

tracing_iff :
    (enabled : Bool) (endpoint : String)
    → (not (enabled && is_empty_text endpoint) ≡ true) ↔ (enabled ≡ true → endpoint ≢ "")
tracing_iff false endpoint = (λ _ e. absurd (cc), λ _. refl)
tracing_iff true endpoint =
    let (to, from) = not-is_empty_text endpoint in (λ h _. to h, λ all. from (all refl))

module _ {p : Platform} (cfg : GatewayConfig p) where
  uniqueness_iff : (check_uniqueness cfg ≡ []) ↔ (
      IsUnique (map (λ r. r.name) cfg.routes)
      × (IsUnique (map (λ s. s.name) cfg.services)
          × IsUnique (map (λ a. a.name) cfg.auth.providers)))
  unfolding check_uniqueness
  uniqueness_iff =
      both _ _ (duplicates-eq-nil (duplicate_name "route") (map (λ r. r.name) cfg.routes)) (
        both _ _ (duplicates-eq-nil (duplicate_name "service") (map (λ s. s.name) cfg.services)) (
          duplicates-eq-nil (duplicate_name "auth provider")
            (map (λ a. a.name) cfg.auth.providers)))

  host_ports_iff : (check_host_ports cfg ≡ []) ↔ (
      IsHostPort cfg.gateway.listen_address
      × (IsHostPort cfg.gateway.admin_address
          × (((value : String) → cfg.gateway.extauthz_address ≡ some value → IsHostPort value)
              × ((cfg.xds.enabled ≡ true → IsHostPort cfg.xds.listen_address)
                  × (cfg.ext_proc.enabled ≡ true → IsHostPort cfg.ext_proc.listen_address)))))
  unfolding check_host_ports
  host_ports_iff = both _ _ (validate_host_port-eq-nil _ _) (
      both _ _ (validate_host_port-eq-nil _ _) (
        both _ _ (check_optional-eq-nil _ _)
          (both _ _ (check_enabled-eq-nil _ _ _) (check_enabled-eq-nil _ _ _))))

  values_iff : (check_value_constraints cfg ≡ []) ↔ (
      (check_host_ports cfg ≡ [])
      × (All (IsValidProvider p) cfg.auth.providers
          × (IsHostPort cfg.rate_limits.redis_address
              × ((flat_map check_route_values cfg.routes ≡ [])
                  × (All IsValidService cfg.services
                      × (((p.lt cfg.observability.tracing.sample_rate (p.of_u64 0) ≡ false)
                            × (p.lt (p.of_u64 1) cfg.observability.tracing.sample_rate ≡ false))
                          × ((cfg.plugins.enabled ≡ true → IsValidEngine cfg.plugins)
                              × (All IsValidPlugin cfg.plugins.global
                                  × IsUnique
                                      (map (λ plugin. plugin.name) cfg.plugins.global)))))))))
  unfolding check_value_constraints
  values_iff = both (check_host_ports cfg) _ (id_iff _) (
      both (flat_map (check_provider p) cfg.auth.providers) _
        (flat_map-eq-nil (IsValidProvider p) (check_provider p) cfg.auth.providers
          (check_provider-eq-nil p))
        (both _ _ (validate_host_port-eq-nil cfg.rate_limits.redis_address _) (
          both (flat_map check_route_values cfg.routes) _ (id_iff _) (
            both (flat_map check_service cfg.services) _
              (flat_map-eq-nil IsValidService check_service cfg.services check_service-eq-nil)
              (both (require _ _) _ (require-eq-nil _ _ (either_false _ _)) (
                both _ _ (check_plugins_enabled-eq-nil cfg.plugins cfg.plugins.enabled) (
                  check_plugins-eq-nil "plugins.global" (duplicate_name "global plugin")
                    cfg.plugins.global)))))))

  conditions_iff : (check_conditional_requirements cfg ≡ []) ↔ (
      (flat_map check_route_conditions cfg.routes ≡ [])
      × (cfg.observability.tracing.enabled ≡ true → cfg.observability.tracing.otlp_endpoint ≢ ""))
  unfolding check_conditional_requirements
  conditions_iff =
      both (flat_map check_route_conditions cfg.routes) (require _ _) (id_iff _)
        (require-eq-nil _ _ (tracing_iff _ _))

  version_iff : (check_version cfg ≡ []) ↔ (cfg.version ≡ 1)
  unfolding check_version
  version_iff = require-eq-nil _ _ (eqb_iff cfg.version 1)

  references_iff :
      (check_referential_integrity cfg ≡ [])
      ↔ (flat_map (check_route_references (service_names cfg) (provider_names cfg)) cfg.routes ≡ [])
  unfolding check_referential_integrity
  references_iff = id_iff _

  errors_sound : all_errors cfg ≡ [] → IsValid cfg
  unfolding all_errors
  errors_sound h =
      let (version, h₁) = (append-eq-nil (check_version cfg) _).0 h in
      let (unique, h₂) = (append-eq-nil (check_uniqueness cfg) _).0 h₁ in
      let (refs, h₃) = (append-eq-nil (check_referential_integrity cfg) _).0 h₂ in
      let (values, conds) = (append-eq-nil (check_value_constraints cfg) _).0 h₃ in
      let u = uniqueness_iff.0 unique in
      let v = values_iff.0 values in
      let a = host_ports_iff.0 v.0 in
      let c = conditions_iff.0 conds in
      record {
        version = version_iff.0 version;
        routes_unique = u.0;
        services_unique = u.1.0;
        providers_unique = u.1.1;
        listen = a.0;
        admin = a.1.0;
        extauthz = a.1.1.0;
        xds = a.1.1.1.0;
        ext_proc = a.1.1.1.1;
        redis = v.1.1.0;
        providers = v.1.0;
        routes =
            (routes_iff (service_names cfg) (provider_names cfg) cfg.routes).0
              (references_iff.0 refs, v.1.1.1.0, c.0);
        services = v.1.1.1.1.0;
        sampled_above = v.1.1.1.1.1.0.0;
        sampled_below = v.1.1.1.1.1.0.1;
        engine = v.1.1.1.1.1.1.0;
        plugins = v.1.1.1.1.1.1.1.0;
        plugins_unique = v.1.1.1.1.1.1.1.1;
        traced = c.1;
      }

  errors_complete : IsValid cfg → all_errors cfg ≡ []
  unfolding all_errors
  errors_complete w =
      let t = (routes_iff (service_names cfg) (provider_names cfg) cfg.routes).1 w.routes in
      let addresses = host_ports_iff.1 (w.listen, (w.admin, (w.extauthz, (w.xds, w.ext_proc)))) in
      let values = values_iff.1 (
        addresses,
        (
          w.providers,
          (
            w.redis,
            (
              t.1,
              (
                w.services,
                ((w.sampled_above, w.sampled_below), (w.engine, (w.plugins, w.plugins_unique))),
              ),
            ),
          ),
        ),
      ) in
      (append-eq-nil (check_version cfg) _).1 (
        version_iff.1 w.version,
        (append-eq-nil (check_uniqueness cfg) _).1 (
          uniqueness_iff.1 (w.routes_unique, (w.services_unique, w.providers_unique)),
          (append-eq-nil (check_referential_integrity cfg) _).1 (
            references_iff.1 t.0,
            (append-eq-nil (check_value_constraints cfg) _).1
                (values, conditions_iff.1 (t.2, w.traced)),
          ),
        ),
      )

  -- `validate` returns `Ok` exactly for the valid configurations.
  pub validate-IsValid : (validate cfg ≡ ok tt) ↔ IsValid cfg
  unfolding validate
  validate-IsValid = (
    λ h. errors_sound (is_empty-eq-nil (all_errors cfg) (ground arith)),
    λ w. rw (errors_complete w, validate),
  )
